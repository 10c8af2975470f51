-- ===== src/LogHub.antt =====
-- The hub of the live logs: per record the events so far, and the channels of the subscribers
-- (server/internal/backup/log_hub.go, with the event of server/internal/backup/types.go).
--
-- Each operation runs under the hub's lock and is one step; the lock itself is not part of the
-- state. A channel is its capacity and what it buffers. Every channel stays in the list, since what
-- it buffers can be read after it has left the map and has been closed. A subscriber reads by
-- `receive`, and none from `subscribe` is a send that never returns. A float64 is its bits: what the code asks of one are the arguments `at_least_100`
-- (Percent >= 100) and `percent_text` (the %.1f of fmt.Sprintf). Times count nanoseconds.
pub mod Steps
pub mod Queues
pub mod Delivery
pub mod Isolation
mod Tests
use backup_x.Base.{
  ℕ, ◌+◌, ◌-◌, Bool, true, false, ◌&&◌, not, List, [], ◌∷◌, ◌++◌, map, Option, none, some, ltb,
  ◌==◌, if◌then◌else◌, length, drop, filter,
}
use backup_x.Base.Text.{Text, codes}

pub record ProgressInfo : Type 0 where
  pub bytes_sent : ℕ
  pub total_bytes : ℕ
  pub percent : ℕ
  pub speed_bps : ℕ
  pub target_name : Text

pub record LogEvent : Type 0 where
  pub record_id : ℕ
  pub sequence : ℕ
  pub level : Text
  pub message : Text
  pub timestamp : ℕ
  pub completed : Bool
  pub status : Text
  pub progress : Option ProgressInfo

-- `is_open` is false once the channel is closed and out of the map.
pub record Subscriber : Type 0 where
  pub id : ℕ
  pub is_open : Bool
  pub capacity : ℕ
  pub queued : List LogEvent

pub record LogStream : Type 0 where
  pub next_sequence : ℕ
  pub events : List LogEvent
  pub subscribers : List Subscriber
  pub next_sub_id : ℕ
  pub completed : Bool
  pub status : Text

abbrev pub new_stream : LogStream
new_stream = record {
  next_sequence = 0;
  events = [];
  subscribers = [];
  next_sub_id = 0;
  completed = false;
  status = codes "running";
}

-- The map of the streams.
abbrev pub LogHub : Type 0
LogHub = List (ℕ × LogStream)

abbrev pub new_log_hub : LogHub
new_log_hub = []

pub find_stream : ℕ → LogHub → Option LogStream
find_stream id [] = none
find_stream id ((k, s) ∷ hub) = let rest = find_stream id hub in if k == id then some s else rest

pub put_stream : ℕ → LogStream → LogHub → LogHub
put_stream id s [] = (id, s) ∷ []
put_stream id s ((k, t) ∷ hub) =
    let rest = put_stream id s hub in if k == id then (k, s) ∷ hub else (k, t) ∷ rest

-- ensureState.
pub ensure_state : ℕ → LogHub → LogStream
ensure_state id hub = elim (find_stream id hub) [ none ↦ new_stream | some s ↦ s ]

-- The send that gives up on a full channel.
pub offer : LogEvent → Subscriber → Subscriber
offer event sub =
    if sub.is_open && ltb (length sub.queued) sub.capacity
    then record sub { queued = sub.queued ++ event ∷ [] }
    else sub

-- The end that Append, Complete and AppendProgress share.
pub publish : LogEvent → LogStream → LogStream
publish event s = record s {
  next_sequence = event.sequence;
  events = s.events ++ event ∷ [];
  subscribers = map (offer event) s.subscribers;
}

pub append_event : ℕ → Text → Text → ℕ → LogStream → LogEvent
append_event record_id level message now s = record {
  record_id = record_id;
  sequence = s.next_sequence + 1;
  level = level;
  message = message;
  timestamp = now;
  completed = false;
  status = s.status;
  progress = none;
}

pub append : ℕ → Text → Text → ℕ → LogHub → LogHub × LogEvent
append record_id level message now hub =
    let state = ensure_state record_id hub in
    let event = append_event record_id level message now state in
    (put_stream record_id (publish event state) hub, event)

-- Snapshot.
pub snapshot : ℕ → LogHub → List LogEvent
snapshot record_id hub = elim (find_stream record_id hub) [ none ↦ [] | some s ↦ s.events ]

-- A buffer that is not positive is 0 here.
abbrev pub default_buffer : ℕ → ℕ
default_buffer buffer = if buffer == 0 then 32 else buffer

-- The new channel.
abbrev pub new_channel : ℕ → LogStream → Subscriber
new_channel buffer s = record {
  id = s.next_sub_id + 1;
  is_open = true;
  capacity = default_buffer buffer;
  queued = [];
}

-- A send that nobody receives: none on a full channel, where it waits for ever.
pub send : LogEvent → Subscriber → Option Subscriber
send event sub =
    if ltb (length sub.queued) sub.capacity
    then some (record sub { queued = sub.queued ++ event ∷ [] })
    else none

-- The loop that sends the events so far.
pub replay : List LogEvent → Subscriber → Option Subscriber
replay [] sub = some sub
replay (event ∷ events) sub = elim (send event sub) [ none ↦ none | some sub' ↦ replay events sub' ]

-- Subscribe on the stream of the record: nobody reads from the channel before it returns.
pub subscribe_stream : ℕ → LogStream → Option (LogStream × ℕ)
subscribe_stream buffer s = elim (replay s.events (new_channel buffer s)) [
  | none ↦ none
  | some sub ↦ some (
    record s { subscribers = s.subscribers ++ sub ∷ []; next_sub_id = s.next_sub_id + 1 },
    s.next_sub_id + 1,
  )
]

pub subscribe : ℕ → ℕ → LogHub → Option (LogHub × ℕ)
subscribe record_id buffer hub = elim (subscribe_stream buffer (ensure_state record_id hub)) [
  | none ↦ none
  | some (s, id) ↦ some (put_stream record_id s hub, id)
]

-- The function that Subscribe returns, on the stream of the record.
pub cancel_stream : ℕ → LogStream → LogStream
cancel_stream id s = record s {
  subscribers =
      map (λ sub. if sub.id == id then record sub { is_open = false } else sub) s.subscribers;
}

pub cancel : ℕ → ℕ → LogHub → LogHub
cancel record_id id hub = elim (find_stream record_id hub) [
  | none ↦ hub
  | some s ↦ put_stream record_id (cancel_stream id s) hub
]

pub complete_event : ℕ → Text → ℕ → LogStream → LogEvent
complete_event record_id status now s = record {
  record_id = record_id;
  sequence = s.next_sequence + 1;
  level = codes "info";
  message = codes "stream completed";
  timestamp = now;
  completed = true;
  status = status;
  progress = none;
}

pub complete_stream : ℕ → Text → ℕ → LogStream → LogStream
complete_stream record_id status now s =
    publish (complete_event record_id status now s) (record s { completed = true; status = status })

pub complete : ℕ → Text → ℕ → LogHub → LogHub
complete record_id status now hub =
    put_stream record_id (complete_stream record_id status now (ensure_state record_id hub)) hub

abbrev has_progress : Option ProgressInfo → Bool
has_progress none = false
has_progress (some progress) = true

-- The last event reports progress and is less than 500 ms old.
pub is_recent_progress : ℕ → List LogEvent → Bool
is_recent_progress now [] = false
is_recent_progress now (event ∷ []) =
    has_progress event.progress && ltb (now - event.timestamp) 500000000
is_recent_progress now (event ∷ next ∷ events) = is_recent_progress now (next ∷ events)

pub progress_event : (ℕ → Text) → ℕ → ProgressInfo → ℕ → LogStream → LogEvent
progress_event percent_text record_id progress now s = record {
  record_id = record_id;
  sequence = s.next_sequence + 1;
  level = codes "progress";
  message = codes "上传进度: " ++ (percent_text progress.percent ++ codes "%");
  timestamp = now;
  completed = false;
  status = s.status;
  progress = some progress;
}

pub progress_stream : (ℕ → Bool) → (ℕ → Text) → ℕ → ProgressInfo → ℕ → LogStream → LogStream
progress_stream at_least_100 percent_text record_id progress now s =
    if not (at_least_100 progress.percent) && is_recent_progress now s.events
    then s
    else publish (progress_event percent_text record_id progress now s) s

pub append_progress : (ℕ → Bool) → (ℕ → Text) → ℕ → ProgressInfo → ℕ → LogHub → LogHub
append_progress at_least_100 percent_text record_id progress now hub =
    put_stream record_id
      (progress_stream at_least_100 percent_text record_id progress now
        (ensure_state record_id hub))
      hub

-- What a channel buffers.
pub queued_of : ℕ → List Subscriber → List LogEvent
queued_of id [] = []
queued_of id (sub ∷ subs) =
    let rest = queued_of id subs in if sub.id == id then sub.queued else rest

-- A read from a channel takes the oldest event out.
pub receive : ℕ → LogStream → LogStream
receive id s = record s {
  subscribers =
      map (λ sub. if sub.id == id then record sub { queued = drop 1 sub.queued } else sub)
        s.subscribers;
}
