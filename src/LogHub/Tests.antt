-- ===== src/LogHub/Tests.antt =====
-- Runs of the hub on concrete logs (server/internal/backup/log_hub.go).
use mathlib.Core.List.{Sublistᴰ}
use backup_x.Base.{ℕ, true, ◌≤◌, ◌<◌, ◌≡◌, refl, ◌⊎◌, false, [], ◌∷◌, none, some, length}
use backup_x.Base.Text.{Text, codes}
use backup_x.LogHub.{
  ProgressInfo, LogEvent, LogStream, LogHub, new_stream, new_log_hub, find_stream, put_stream,
  ensure_state, offer, publish, append_event, append, snapshot, default_buffer, send, replay,
  subscribe_stream, subscribe, cancel_stream, cancel, complete_event, complete_stream, complete,
  is_recent_progress, progress_event, progress_stream, append_progress, queued_of, receive,
}
use backup_x.LogHub.Steps.{opened, appends, receives, step, Steps, done, next, Numbered, IsStream}
use backup_x.LogHub.Delivery.{subscribe_delivery}
use backup_x.LogHub.Isolation.{append_publishes, subscribe_blocks}

new_stream-IsStream : IsStream new_stream
new_stream-IsStream = record { numbered = tt; counted = refl; ids = tt }

abbrev message : Text
message = codes "started"

abbrev first_event : LogEvent
first_event = record {
  record_id = 5;
  sequence = 1;
  level = codes "info";
  message = message;
  timestamp = 40;
  completed = false;
  status = codes "running";
  progress = none;
}

abbrev after_append : LogStream
after_append = record {
  next_sequence = 1;
  events = first_event ∷ [];
  subscribers = record { id = 1; is_open = true; capacity = 4; queued = first_event ∷ [] } ∷ [];
  next_sub_id = 1;
  completed = false;
  status = codes "running";
}

abbrev after_read : LogStream
after_read = record after_append {
  subscribers = record { id = 1; is_open = true; capacity = 4; queued = [] } ∷ [];
}

reads_one : Steps 5 1 (opened 4 new_stream) (first_event ∷ []) after_read
unfolding step publish append_event offer receive queued_of
reads_one =
    next (appends (codes "info") message 40) refl (next {t = after_read} (receives 1) refl done)

opens : subscribe_stream 4 new_stream ≡ some (opened 4 new_stream, 1)
unfolding subscribe_stream replay send
opens = refl

subscribe_delivery_example :
    Sublistᴰ (first_event ∷ []) (first_event ∷ []) × Numbered 0 (first_event ∷ [])
unfolding queued_of
subscribe_delivery_example =
    subscribe_delivery 5 4 1 new_stream (opened 4 new_stream) after_read (first_event ∷ [])
      new_stream-IsStream opens reads_one

abbrev hub : LogHub
hub = (5, after_append) ∷ []

append_publishes_example :
    snapshot 5 (append 5 (codes "info") (codes "more") 50 hub).0
    ≡ first_event ∷ record first_event { sequence = 2; message = codes "more"; timestamp = 50 } ∷ []
unfolding append append_event ensure_state find_stream snapshot
append_publishes_example = append_publishes 5 (codes "info") (codes "more") 50 hub 5

subscribe_blocks_example :
    ((subscribe 5 1 hub ≡ none) × (default_buffer 1 < length (snapshot 5 hub)))
    ⊎ ((hub' : LogHub) × (id : ℕ) × (subscribe 5 1 hub ≡ some (hub', id))
        × (length (snapshot 5 hub) ≤ default_buffer 1)
        × ((a : ℕ) → snapshot a hub' ≡ snapshot a hub))
subscribe_blocks_example = subscribe_blocks 5 1 hub

-- A channel for one event, and a log of two: the replay blocks.
blocks : subscribe 5 1 (append 5 (codes "info") (codes "more") 50 hub).0 ≡ none
unfolding subscribe subscribe_stream replay send append append_event ensure_state find_stream
    put_stream publish
blocks = refl

abbrev half : ProgressInfo
half = record {
  bytes_sent = 1;
  total_bytes = 2;
  percent = 50;
  speed_bps = 1;
  target_name = codes "s3";
}

-- The second of two reports of progress within half a second is dropped, Complete is not.
throttles :
    let once = append_progress (λ p. false) (λ p. codes "50.0") 9 half 1000 new_log_hub in
    (append_progress (λ p. false) (λ p. codes "50.0") 9 half 2000 once ≡ once)
    × (length (snapshot 9 (complete 9 (codes "success") 3000 once)) ≡ 2)
    × (length (snapshot 9 (cancel 9 1 once)) ≡ 1)
unfolding append_progress progress_stream progress_event is_recent_progress ensure_state find_stream
    put_stream publish complete complete_stream complete_event snapshot cancel cancel_stream
throttles = (refl, refl, refl)
