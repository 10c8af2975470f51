-- ===== src/LogHub/Queues.antt =====
-- The channels of the subscribers under the operations
-- (server/internal/backup/log_hub.go).
use backup_x.Base.{
  ℕ, ◌≡◌, refl, ◌⊎◌, inl, inr, false, ◌&&◌, List, [], ◌∷◌, ◌++◌, map, arith, ltb, ◌==◌,
  if◌then◌else◌, length, drop, Bool-cases,
}
use backup_x.LogHub.{LogEvent, Subscriber, offer, queued_of}

module _ (sub : ℕ) where
  -- An offer adds the event at the end of the queue, or drops it because the queue is full.
  pub queued_of-offer :
      (e : LogEvent) (subs : List Subscriber)
      → (queued_of sub (map (offer e) subs) ≡ queued_of sub subs)
        ⊎ (queued_of sub (map (offer e) subs) ≡ queued_of sub subs ++ e ∷ [])
  unfolding queued_of offer
  queued_of-offer e [] = inl refl
  queued_of-offer e (x ∷ subs) = elim (Bool-cases (x.is_open && ltb (length x.queued) x.capacity)) [
    | inl f ↦ elim (Bool-cases (x.id == sub)) [
      | inl g ↦ inr (rw (f, g, queued_of, offer) refl)
      | inr g ↦ rw (f, g, queued_of, offer) (queued_of-offer e subs)
    ]
    | inr f ↦ elim (Bool-cases (x.id == sub)) [
      | inl g ↦ inl (rw (f, g, queued_of, offer) refl)
      | inr g ↦ rw (f, g, queued_of, offer) (queued_of-offer e subs)
    ]
  ]

  pub queued_of-append :
      (subs : List Subscriber) (x : Subscriber)
      → (x.id == sub) ≡ false
      → queued_of sub (subs ++ x ∷ []) ≡ queued_of sub subs
  unfolding queued_of
  queued_of-append [] x h = ground arith
  queued_of-append (y ∷ subs) x h = ground (arith, queued_of-append subs x h)

  -- Closing a channel leaves what it buffers.
  pub queued_of-close :
      (id : ℕ) (subs : List Subscriber)
      → queued_of sub (map (λ x. if x.id == id then record x { is_open = false } else x) subs)
        ≡ queued_of sub subs
  unfolding queued_of
  queued_of-close id [] = refl
  queued_of-close id (y ∷ subs) = ground (arith, queued_of-close id subs)

  pub queued_of-receive :
      (id : ℕ) (subs : List Subscriber)
      → queued_of sub
          (map (λ x. if x.id == id then record x { queued = drop 1 x.queued } else x) subs)
        ≡ (if id == sub then drop 1 (queued_of sub subs) else queued_of sub subs)
  unfolding queued_of
  queued_of-receive id [] = ground arith
  queued_of-receive id (y ∷ subs) = ground (arith, queued_of-receive id subs)
