-- ===== src/LogHub/Steps.antt =====
-- The operations on the stream of a record, and that its log is numbered
-- (server/internal/backup/log_hub.go).
use mathlib.Core.Option.{some-injective}
use mathlib.Core.List.{append-nil, append_assoc}
use backup_x.Base.{
  ℕ, ◌+◌, ◌≤◌, ◌<◌, ◌≡◌, refl, ◌∙◌, ap, subst, ◌⊎◌, inl, inr, Bool, true, false, ◌&&◌, not, List,
  [], ◌∷◌, ◌++◌, map, Option, none, some, arith, ltb, ◌==◌, if◌then◌else◌, length, take, drop,
  length-append, All, Bool-cases,
}
use backup_x.Base.Text.{Text}
use backup_x.LogHub.{
  LogEvent, ProgressInfo, Subscriber, LogStream, offer, publish, append_event, complete_stream,
  complete_event, progress_stream, progress_event, is_recent_progress, subscribe_stream,
  cancel_stream, default_buffer, new_channel, send, replay, queued_of, receive,
}

-- What can happen to the stream of a record, each with what its caller gives.
pub data Operation : Type 0 where
  appends : Text → Text → ℕ → Operation
  completes : Text → ℕ → Operation
  progresses : (ℕ → Bool) → (ℕ → Text) → ProgressInfo → ℕ → Operation
  subscribes : ℕ → Operation
  cancels : ℕ → Operation
  receives : ℕ → Operation

abbrev pub stream_of : Option (LogStream × ℕ) → Option LogStream
stream_of none = none
stream_of (some (s, id)) = some s

-- One operation; none when it blocks for ever.
unfoldable pub step : ℕ → LogStream → Operation → Option LogStream
step record_id s (appends level message now) =
    some (publish (append_event record_id level message now s) s)
step record_id s (completes status now) = some (complete_stream record_id status now s)
step record_id s (progresses at_least_100 percent_text progress now) =
    some (progress_stream at_least_100 percent_text record_id progress now s)
step record_id s (subscribes buffer) = stream_of (subscribe_stream buffer s)
step record_id s (cancels id) = some (cancel_stream id s)
step record_id s (receives id) = some (receive id s)

-- What the subscriber `sub` reads in an operation.
abbrev pub read_by : ℕ → LogStream → Operation → List LogEvent
read_by sub s (receives id) = if id == sub then take 1 (queued_of sub s.subscribers) else []
read_by sub s _ = []

-- Operations one after the other, and what the subscriber `sub` reads in them.
pub data Steps (record_id sub : ℕ) : LogStream → List LogEvent → LogStream → Type 0 where
  done : {s : LogStream} → Steps record_id sub s [] s
  next :
      {s t u : LogStream} {later : List LogEvent} (op : Operation)
      → step record_id s op ≡ some t
      → Steps record_id sub t later u
      → Steps record_id sub s (read_by sub s op ++ later) u

-- The sequence numbers go on from `n` without a gap.
abbrev pub Numbered : ℕ → List LogEvent → Type 0
Numbered n [] = Unit
Numbered n (e ∷ es) = (e.sequence ≡ n + 1) × Numbered (n + 1) es

pub record IsStream (s : LogStream) : Type 0 where
  pub numbered : Numbered 0 s.events
  pub counted : s.next_sequence ≡ length s.events
  pub ids : All (λ sub. sub.id ≤ s.next_sub_id) s.subscribers

Numbered-snoc :
    (n : ℕ) (es : List LogEvent) (e : LogEvent)
    → Numbered n es
    → e.sequence ≡ n + length es + 1
    → Numbered n (es ++ e ∷ [])
Numbered-snoc n [] e v h = (omega (arith, h), tt)
Numbered-snoc n (x ∷ es) e v h = (v.0, Numbered-snoc (n + 1) es e v.1 (omega (arith, h)))

abbrev pub IdsBelow : ℕ → List Subscriber → Type 0
IdsBelow n subs = All (λ sub. sub.id ≤ n) subs

offer_ids :
    (n : ℕ) (e : LogEvent) (subs : List Subscriber)
    → IdsBelow n subs
    → IdsBelow n (map (offer e) subs)
unfolding offer
offer_ids n e [] v = tt
offer_ids n e (x ∷ subs) v = (ground (arith, v.0), offer_ids n e subs v.1)

close_ids :
    (n id : ℕ) (subs : List Subscriber)
    → IdsBelow n subs
    → IdsBelow n (map (λ x. if x.id == id then record x { is_open = false } else x) subs)
close_ids n id [] v = tt
close_ids n id (x ∷ subs) v = (ground (arith, v.0), close_ids n id subs v.1)

receive_ids :
    (n id : ℕ) (subs : List Subscriber)
    → IdsBelow n subs
    → IdsBelow n (map (λ x. if x.id == id then record x { queued = drop 1 x.queued } else x) subs)
receive_ids n id [] v = tt
receive_ids n id (x ∷ subs) v = (ground (arith, v.0), receive_ids n id subs v.1)

open_ids :
    (n : ℕ) (x : Subscriber) (subs : List Subscriber)
    → IdsBelow n subs
    → x.id ≤ n + 1
    → IdsBelow (n + 1) (subs ++ x ∷ [])
open_ids n x [] v h = (h, tt)
open_ids n x (y ∷ subs) v h = (omega (arith, v.0), open_ids n x subs v.1 h)

publish-IsStream :
    (e : LogEvent) (s : LogStream)
    → e.sequence ≡ s.next_sequence + 1
    → IsStream s
    → IsStream (publish e s)
unfolding publish
publish-IsStream e s h v = record {
  numbered = Numbered-snoc 0 s.events e v.numbered (omega (arith, h, v.counted));
  counted = omega (arith, h, v.counted, length-append s.events (e ∷ []));
  ids = offer_ids s.next_sub_id e s.subscribers v.ids;
}

progress-IsStream :
    (at_least_100 : ℕ → Bool) (percent_text : ℕ → Text) (record_id : ℕ) (progress : ProgressInfo)
    (now : ℕ) (s : LogStream)
    → IsStream s
    → IsStream (progress_stream at_least_100 percent_text record_id progress now s)
unfolding progress_stream progress_event
progress-IsStream at_least_100 percent_text record_id progress now s v =
    elim (Bool-cases (not (at_least_100 progress.percent) && is_recent_progress now s.events)) [
      | inl e ↦ rw (e, progress_stream) v
      | inr e ↦
          rw (e, progress_stream)
            (publish-IsStream (progress_event percent_text record_id progress now s) s (omega arith)
              v)
    ]

-- The channel of a new subscriber that has the events so far, and the stream with it.
abbrev pub replayed : ℕ → LogStream → Subscriber
replayed buffer s = record (new_channel buffer s) { queued = s.events }

abbrev pub opened : ℕ → LogStream → LogStream
opened buffer s = record s {
  subscribers = s.subscribers ++ replayed buffer s ∷ [];
  next_sub_id = s.next_sub_id + 1;
}

replay_step :
    (event : LogEvent) (events : List LogEvent) (sub : Subscriber)
    → ltb (length sub.queued) sub.capacity ≡ true
    → replay (event ∷ events) sub ≡ replay events (record sub { queued = sub.queued ++ event ∷ [] })
unfolding replay send
replay_step event events sub free = ground (arith, free)

replay_full :
    (event : LogEvent) (events : List LogEvent) (sub : Subscriber)
    → ltb (length sub.queued) sub.capacity ≡ false
    → replay (event ∷ events) sub ≡ none
unfolding replay send
replay_full event events sub full = ground (arith, full)

-- The loop of sends ends when all events fit, and waits for ever when they do not.
replay_fits :
    (events : List LogEvent) (sub : Subscriber)
    → length sub.queued + length events ≤ sub.capacity
    → replay events sub ≡ some (record sub { queued = sub.queued ++ events })
unfolding replay
replay_fits [] sub fits = rw (append-nil sub.queued) refl
replay_fits (event ∷ events) sub fits =
    replay_step event events sub (ground (arith, fits))
    ∙ replay_fits events (record sub { queued = sub.queued ++ event ∷ [] })
        (omega (arith, fits, length-append sub.queued (event ∷ [])))
    ∙ ap (λ (q : List LogEvent). some (record sub { queued = q }))
        (append_assoc sub.queued (event ∷ []) events)

replay_waits :
    (events : List LogEvent) (sub : Subscriber)
    → sub.capacity < length sub.queued + length events
    → length sub.queued ≤ sub.capacity
    → replay events sub ≡ none
unfolding replay send
replay_waits [] sub long room = absurd (omega (arith, long, room))
replay_waits (event ∷ events) sub long room =
    elim (Bool-cases (ltb (length sub.queued) sub.capacity)) [
      | inr full ↦ replay_full event events sub full
      | inl free ↦
          let one_more = length-append sub.queued (event ∷ []) in
          replay_step event events sub free
          ∙ replay_waits events (record sub { queued = sub.queued ++ event ∷ [] })
              (omega (arith, long, one_more)) (ground (arith, one_more, free))
    ]

-- Subscribe succeeds exactly when the log so far fits into the channel.
pub subscribe_stream-cases :
    (buffer : ℕ) (s : LogStream)
    → ((subscribe_stream buffer s ≡ none) × (default_buffer buffer < length s.events))
      ⊎ ((subscribe_stream buffer s ≡ some (opened buffer s, s.next_sub_id + 1))
          × (length s.events ≤ default_buffer buffer))
unfolding subscribe_stream
subscribe_stream-cases buffer s =
    elim (Bool-cases (ltb (default_buffer buffer) (length s.events))) [
      | inl long ↦
          let more : default_buffer buffer < length s.events = ground (arith, long) in
          let waits =
            replay_waits s.events (new_channel buffer s) (omega (arith, more)) (omega arith) in
          inl (ground (arith, waits), more)
      | inr short ↦
          let fits : length s.events ≤ default_buffer buffer = ground (arith, short) in
          let sent = replay_fits s.events (new_channel buffer s) (omega (arith, fits)) in
          inr (ground (arith, sent), fits)
    ]

pub opened-IsStream : (buffer : ℕ) (s : LogStream) → IsStream s → IsStream (opened buffer s)
opened-IsStream buffer s v = record {
  numbered = v.numbered;
  counted = v.counted;
  ids = open_ids s.next_sub_id (replayed buffer s) s.subscribers v.ids (omega arith);
}

subscribe-IsStream :
    (buffer : ℕ) (s t : LogStream)
    → stream_of (subscribe_stream buffer s) ≡ some t
    → IsStream s
    → IsStream t
subscribe-IsStream buffer s t h v = elim (subscribe_stream-cases buffer s) [
  | inl (e, _) ↦ let blocks = rw e at h in ground arith
  | inr (e, _) ↦ subst IsStream (some-injective _ _ (rw e at h)) (opened-IsStream buffer s v)
]

step-IsStream :
    (record_id : ℕ) (op : Operation) (s t : LogStream)
    → step record_id s op ≡ some t
    → IsStream s
    → IsStream t
unfolding step append_event complete_stream complete_event cancel_stream receive
step-IsStream record_id (appends level message now) s t h v =
    subst IsStream (some-injective _ _ h)
      (publish-IsStream (append_event record_id level message now s) s (omega arith) v)
step-IsStream record_id (completes status now) s t h v = subst IsStream (some-injective _ _ h) (
    publish-IsStream (complete_event record_id status now s)
      (record s { completed = true; status = status }) (omega arith)
      (record { numbered = v.numbered; counted = v.counted; ids = v.ids }))
step-IsStream record_id (progresses at_least_100 percent_text progress now) s t h v =
    subst IsStream (some-injective _ _ h)
      (progress-IsStream at_least_100 percent_text record_id progress now s v)
step-IsStream record_id (subscribes buffer) s t h v = subscribe-IsStream buffer s t h v
step-IsStream record_id (cancels id) s t h v = subst IsStream (some-injective _ _ h) (record {
  numbered = v.numbered;
  counted = v.counted;
  ids = close_ids s.next_sub_id id s.subscribers v.ids;
})
step-IsStream record_id (receives id) s t h v = subst IsStream (some-injective _ _ h) (record {
  numbered = v.numbered;
  counted = v.counted;
  ids = receive_ids s.next_sub_id id s.subscribers v.ids;
})

-- Whatever runs, the sequence numbers of the log are 1, 2, 3, … without a gap, and no two
-- subscribers share an id that the next one could get.
pub Steps-IsStream :
    (record_id sub : ℕ) (later : List LogEvent) (s t : LogStream)
    → Steps record_id sub s later t
    → IsStream s
    → IsStream t
Steps-IsStream record_id sub later s t done v = v
Steps-IsStream record_id sub later s t (next {t = u} {later = rest} op h steps) v =
    Steps-IsStream record_id sub rest u t steps (step-IsStream record_id op s u h v)
