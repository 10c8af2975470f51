-- ===== src/LogHub/Delivery.antt =====
-- What a subscriber reads, whatever runs on the stream of its record
-- (server/internal/backup/log_hub.go).
use mathlib.Core.List.{Sublistᴰ, append_assoc, append-nil}
use mathlib.Core.Option.{some-injective}
use mathlib.Core.List.Sublistᴰ
use backup_x.Base.{
  ℕ, ◌+◌, ◌≤◌, ◌≡◌, refl, sym, ap, subst, inl, inr, Bool, true, ◌&&◌, not, List, [], ◌∷◌, ◌++◌,
  some, arith, ◌==◌, take, drop, Bool-cases, Option-cases,
}
use backup_x.Base.Text.{Text}
use backup_x.LogHub.{
  LogEvent, ProgressInfo, Subscriber, LogStream, publish, append_event, complete_stream,
  complete_event, progress_stream, progress_event, is_recent_progress, subscribe_stream,
  cancel_stream, queued_of, receive,
}
use backup_x.LogHub.Steps.{
  Operation, appends, completes, progresses, subscribes, cancels, receives, stream_of, step,
  read_by, Steps, done, next, Numbered, IsStream, IdsBelow, replayed, opened,
  subscribe_stream-cases, opened-IsStream, Steps-IsStream,
}
use backup_x.LogHub.Queues.{queued_of-offer, queued_of-append, queued_of-close, queued_of-receive}

module _ (sub : ℕ) where
  -- What the subscriber has read, followed by what its channel holds, is a part of the log in the
  -- order of the log.
  record Delivered (past : List LogEvent) (s : LogStream) : Type 0 where
    in_order : Sublistᴰ (past ++ queued_of sub s.subscribers) s.events
    known : sub ≤ s.next_sub_id

  publish-Delivered :
      (past : List LogEvent) (e : LogEvent) (s : LogStream)
      → Delivered past s
      → Delivered past (publish e s)
  unfolding publish
  publish-Delivered past e s v = record {
    in_order = elim (queued_of-offer sub e s.subscribers) [
      | inl same ↦
          rw (same, ← append-nil (past ++ queued_of sub s.subscribers))
            (Sublistᴰ.append v.in_order (Sublistᴰ.cons Sublistᴰ.slnil))
      | inr more ↦
          rw (more, ← append_assoc past (queued_of sub s.subscribers) (e ∷ []))
            (Sublistᴰ.append v.in_order (Sublistᴰ.cons-cons refl Sublistᴰ.slnil))
    ];
    known = v.known;
  }

  shorter : (xs ys zs : List LogEvent) → Sublistᴰ (xs ++ ys) zs → Sublistᴰ xs zs
  shorter xs ys zs v =
      Sublistᴰ.trans
        (subst (λ l. Sublistᴰ l (xs ++ ys)) (append-nil xs)
          (Sublistᴰ.append (Sublistᴰ.refl xs) (Sublistᴰ.nil-sublist ys)))
        v

  subscribe-Delivered :
      (past : List LogEvent) (buffer id : ℕ) (s t : LogStream)
      → subscribe_stream buffer s ≡ some (t, id)
      → Delivered past s
      → Delivered past t
  subscribe-Delivered past buffer id s t h v = elim (subscribe_stream-cases buffer s) [
    | inl (e, _) ↦ let blocks = rw e at h in ground arith
    | inr (e, _) ↦
        let same : opened buffer s ≡ t = ap (λ r. r.0) (some-injective _ _ (rw e at h)) in
        subst (Delivered past) same record {
          in_order =
              rw (queued_of-append sub s.subscribers (replayed buffer s) (ground (arith, v.known)))
                v.in_order;
          known = omega (arith, v.known);
        }
  ]

  cancel-Delivered :
      (past : List LogEvent) (id : ℕ) (s : LogStream)
      → Delivered past s
      → Delivered past (cancel_stream id s)
  unfolding cancel_stream
  cancel-Delivered past id s v = record {
    in_order = rw (queued_of-close sub id s.subscribers) v.in_order;
    known = v.known;
  }

  take-drop : (xs : List LogEvent) → take 1 xs ++ drop 1 xs ≡ xs
  take-drop [] = refl
  take-drop (x ∷ xs) = refl

  receive-Delivered :
      (past : List LogEvent) (id : ℕ) (s : LogStream)
      → Delivered past s
      → Delivered (past ++ read_by sub s (receives id)) (receive id s)
  unfolding receive
  receive-Delivered past id s v = record {
    in_order = elim (Bool-cases (id == sub)) [
      | inl e ↦
          rw
            (
              queued_of-receive sub id s.subscribers,
              e,
              append_assoc past (take 1 (queued_of sub s.subscribers))
                  (drop 1 (queued_of sub s.subscribers)),
              take-drop (queued_of sub s.subscribers),
            )
            v.in_order
      | inr e ↦ rw (queued_of-receive sub id s.subscribers, e, append-nil past) v.in_order
    ];
    known = v.known;
  }

  progress-Delivered :
      (past : List LogEvent) (at_least_100 : ℕ → Bool) (percent_text : ℕ → Text) (record_id : ℕ)
      (progress : ProgressInfo) (now : ℕ) (s : LogStream)
      → Delivered past s
      → Delivered past (progress_stream at_least_100 percent_text record_id progress now s)
  unfolding progress_stream
  progress-Delivered past at_least_100 percent_text record_id progress now s v =
      elim (Bool-cases (not (at_least_100 progress.percent) && is_recent_progress now s.events)) [
        | inl e ↦ rw (e, progress_stream) v
        | inr e ↦
            rw (e, progress_stream)
              (publish-Delivered past (progress_event percent_text record_id progress now s) s v)
      ]

  step-Delivered :
      (record_id : ℕ) (past : List LogEvent) (op : Operation) (s t : LogStream)
      → step record_id s op ≡ some t
      → Delivered past s
      → Delivered (past ++ read_by sub s op) t
  unfolding step
  step-Delivered record_id past (appends level message now) s t h v =
      subst (Delivered (past ++ [])) (some-injective _ _ h)
        (rw append-nil (publish-Delivered past (append_event record_id level message now s) s v))
  step-Delivered record_id past (completes status now) s t h v =
      subst (Delivered (past ++ [])) (some-injective _ _ h) (
        unfold complete_stream in
        rw append-nil (
          publish-Delivered past (complete_event record_id status now s)
            (record s { completed = true; status = status })
            (record { in_order = v.in_order; known = v.known })))
  step-Delivered record_id past (progresses at_least_100 percent_text progress now) s t h v =
      subst (Delivered (past ++ [])) (some-injective _ _ h) (
        rw append-nil
          (progress-Delivered past at_least_100 percent_text record_id progress now s v))
  step-Delivered record_id past (subscribes buffer) s t h v =
      rw append-nil (subscribed past buffer s t h v)
    where
      subscribed :
          (past : List LogEvent) (buffer : ℕ) (s t : LogStream)
          → stream_of (subscribe_stream buffer s) ≡ some t
          → Delivered past s
          → Delivered past t
      subscribed past buffer s t h v = elim (Option-cases (subscribe_stream buffer s)) [
        | inl e ↦ let blocks = rw e at h in ground arith
        | inr ((t', id), e) ↦
            subst (Delivered past) (some-injective _ _ (rw e at h))
              (subscribe-Delivered past buffer id s t' e v)
      ]
  step-Delivered record_id past (cancels id) s t h v =
      subst (Delivered (past ++ [])) (some-injective _ _ h)
        (rw append-nil (cancel-Delivered past id s v))
  step-Delivered record_id past (receives id) s t h v =
      subst (Delivered (past ++ read_by sub s (receives id))) (some-injective _ _ h)
        (receive-Delivered past id s v)

  Steps-Delivered :
      (record_id : ℕ) (past later : List LogEvent) (s t : LogStream)
      → Steps record_id sub s later t
      → Delivered past s
      → Delivered (past ++ later) t
  Steps-Delivered record_id past later s t done v = rw append-nil v
  Steps-Delivered record_id past later s t (next {t = u} {later = rest} op h steps) v =
      rw (← append_assoc past (read_by sub s op) rest) (
        Steps-Delivered record_id (past ++ read_by sub s op) rest u t steps
          (step-Delivered record_id past op s u h v))

queued_of-replayed :
    (n : ℕ) (subs : List Subscriber) (x : Subscriber)
    → IdsBelow n subs
    → x.id ≡ n + 1
    → queued_of (n + 1) (subs ++ x ∷ []) ≡ x.queued
unfolding queued_of
queued_of-replayed n [] x v h = ground (arith, h)
queued_of-replayed n (y ∷ subs) x v h = ground (arith, v.0, queued_of-replayed n subs x v.1 h)

opened-Delivered :
    (buffer : ℕ) (s : LogStream) → IsStream s → Delivered (s.next_sub_id + 1) [] (opened buffer s)
opened-Delivered buffer s v = record {
  in_order =
      subst (λ l. Sublistᴰ l s.events)
        (sym (queued_of-replayed s.next_sub_id s.subscribers (replayed buffer s) v.ids refl))
        (Sublistᴰ.refl s.events);
  known = omega arith;
}

-- A subscriber reads a part of the log in the order of the log: nothing twice, nothing out of
-- order, and nothing that is not in the log, whose events are numbered 1, 2, 3, … without a gap.
-- This holds whatever else runs on the stream, other subscribers included.
pub subscribe_delivery :
    (record_id buffer sub : ℕ) (s s' t : LogStream) (later : List LogEvent)
    → IsStream s
    → subscribe_stream buffer s ≡ some (s', sub)
    → Steps record_id sub s' later t
    → Sublistᴰ (later ++ queued_of sub t.subscribers) t.events × Numbered 0 t.events
subscribe_delivery record_id buffer sub s s' t later v h steps =
    elim (subscribe_stream-cases buffer s) [
      | inl (e, _) ↦ let blocks = rw e at h in ground arith
      | inr (e, _) ↦
          let same = some-injective _ _ (rw e at h) in
          let same_stream : opened buffer s ≡ s' = ap (λ r. r.0) same in
          let ends =
            Steps-IsStream record_id sub later s' t steps
              (subst IsStream same_stream (opened-IsStream buffer s v)) in
          let start : Delivered sub [] s' =
            subst (λ r. Delivered r.1 [] r.0) same (opened-Delivered buffer s v) in
          ((Steps-Delivered sub record_id [] later s' t steps start).in_order, ends.numbered)
    ]
