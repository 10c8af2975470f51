-- ===== src/LogHub/Isolation.antt =====
-- The operations of the hub on the logs of all records
-- (server/internal/backup/log_hub.go).
use backup_x.Base.{
  ℕ, ◌+◌, ◌≤◌, ◌<◌, ◌≡◌, refl, ap, subst, ◌⊎◌, inl, inr, [], ◌∷◌, ◌++◌, none, some, arith, ◌==◌,
  if◌then◌else◌, length, Bool-cases, Option-cases, ==_iff,
}
use backup_x.Base.Text.{Text}
use backup_x.LogHub.{
  LogEvent, LogStream, LogHub, find_stream, put_stream, ensure_state, publish, append_event, append,
  snapshot, subscribe, default_buffer,
}
use backup_x.LogHub.Steps.{opened, subscribe_stream-cases}

find_stream-put :
    (a id : ℕ) (s : LogStream) (hub : LogHub)
    → find_stream a (put_stream id s hub) ≡ (if id == a then some s else find_stream a hub)
unfolding find_stream put_stream
find_stream-put a id s [] = refl
find_stream-put a id s ((k, t) ∷ hub) = ground (arith, find_stream-put a id s hub)

snapshot-put :
    (a id : ℕ) (s : LogStream) (hub : LogHub)
    → snapshot a (put_stream id s hub) ≡ (if id == a then s.events else snapshot a hub)
unfolding snapshot
snapshot-put a id s hub = elim (Bool-cases (id == a)) [
  | inl e ↦ rw (find_stream-put a id s hub, e, snapshot) refl
  | inr e ↦ rw (find_stream-put a id s hub, e, snapshot) refl
]

snapshot-ensure_state : (id : ℕ) (hub : LogHub) → (ensure_state id hub).events ≡ snapshot id hub
unfolding snapshot ensure_state
snapshot-ensure_state id hub = elim (Option-cases (find_stream id hub)) [
  | inl e ↦ rw (e, snapshot, ensure_state) refl
  | inr (s, e) ↦ rw (e, snapshot, ensure_state) refl
]

published :
    (record_id a : ℕ) (s : LogStream) (event : LogEvent) (hub : LogHub)
    → s.events ≡ snapshot record_id hub ++ event ∷ []
    → snapshot a (put_stream record_id s hub)
      ≡ (if record_id == a then snapshot a hub ++ event ∷ [] else snapshot a hub)
published record_id a s event hub h = elim (Bool-cases (record_id == a)) [
  | inl e ↦
      rw (snapshot-put a record_id s hub, e)
        (subst (λ b. s.events ≡ snapshot b hub ++ event ∷ []) ((==_iff record_id a).0 e) h)
  | inr e ↦ rw (snapshot-put a record_id s hub, e) refl
]

-- Append puts the event that it returns at the end of the log of its record; the log of every
-- other record stays as it is.
pub append_publishes :
    (record_id : ℕ) (level message : Text) (now : ℕ) (hub : LogHub) (a : ℕ)
    → snapshot a (append record_id level message now hub).0 ≡ (
        if record_id == a
        then snapshot a hub ++ (append record_id level message now hub).1 ∷ []
        else snapshot a hub)
unfolding append publish
append_publishes record_id level message now hub a =
    published record_id a _ (append_event record_id level message now (ensure_state record_id hub))
      hub
      (ap (λ l. l ++ append_event record_id level message now (ensure_state record_id hub) ∷ [])
        (snapshot-ensure_state record_id hub))

-- Subscribe never returns exactly when the log of the record is longer than the buffer, since its
-- loop then meets a full channel; else it returns and no log changes.
pub subscribe_blocks :
    (record_id buffer : ℕ) (hub : LogHub)
    → ((subscribe record_id buffer hub ≡ none)
        × (default_buffer buffer < length (snapshot record_id hub)))
      ⊎ ((hub' : LogHub) × (id : ℕ) × (subscribe record_id buffer hub ≡ some (hub', id))
          × (length (snapshot record_id hub) ≤ default_buffer buffer)
          × ((a : ℕ) → snapshot a hub' ≡ snapshot a hub))
unfolding subscribe
subscribe_blocks record_id buffer hub =
    let log = snapshot-ensure_state record_id hub in
    elim (subscribe_stream-cases buffer (ensure_state record_id hub)) [
      | inl (e, long) ↦
          inl (rw (e, subscribe) refl, subst (λ l. default_buffer buffer < length l) log long)
      | inr (e, short) ↦ inr (
        put_stream record_id (opened buffer (ensure_state record_id hub)) hub,
        (ensure_state record_id hub).next_sub_id + 1,
        rw (e, subscribe) refl,
        subst (λ l. length l ≤ default_buffer buffer) log short,
        λ a. unchanged a,
      )
    ]
  where
    unchanged :
        (a : ℕ)
        → snapshot a (put_stream record_id (opened buffer (ensure_state record_id hub)) hub)
          ≡ snapshot a hub
    unchanged a = elim (Bool-cases (record_id == a)) [
      | inl e ↦
          rw (snapshot-put a record_id (opened buffer (ensure_state record_id hub)) hub, e)
            (subst (λ b. (ensure_state record_id hub).events ≡ snapshot b hub)
              ((==_iff record_id a).0 e) (snapshot-ensure_state record_id hub))
      | inr e ↦
          rw (snapshot-put a record_id (opened buffer (ensure_state record_id hub)) hub, e) refl
    ]
