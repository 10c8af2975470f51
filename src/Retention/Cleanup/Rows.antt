-- ===== src/Retention/Cleanup/Rows.antt =====
-- Rows and objects in the concrete environment, over a run (the loop of
-- cleanup in server/internal/backup/retention/service.go).
use backup_x.Base.{
  ℕ, ◌≡◌, refl, sym, ◌∙◌, ap, subst, true, false, not, ◌&&◌, ◌||◌, ◌⊎◌, inl, inr, List, [], ◌∷◌,
  ◌==◌, if◌then◌else◌, contains, All, arith, Bool-cases,
}
use backup_x.Retention.Select.{BackupRecord}
use backup_x.Retention.Select.Records.{Member}
use backup_x.Retention.Cleanup.{
  Progress, CleanupObject, ObjectsResult, objects, decode_error, no_successful_copy,
  cleanup_objects_for_record, clean_object, clean_objects, clean_row, clean_record, clean_records,
  warn,
}
use backup_x.Retention.Cleanup.World.{
  World, Faults, calls_of, is_stored, remove_object_gone, remove_object_keeps_gone,
  contains-remove_row,
}

module _ (f : Faults) where
  abbrev IsGone : Progress World → CleanupObject → Type 0
  IsGone p o = is_stored p.env.stored o ≡ false

  clean_object-IsGone :
      (r : BackupRecord) (o : CleanupObject) (p : Progress World)
      → (clean_object (calls_of f) r o p).1 ≡ true
      → IsGone (clean_object (calls_of f) r o p).0 o
  unfolding clean_object calls_of
  clean_object-IsGone r o p h = ground (arith, remove_object_gone o p.env.stored)

  clean_object_keeps_IsGone :
      (r : BackupRecord) (o x : CleanupObject) (p : Progress World)
      → IsGone p x
      → IsGone (clean_object (calls_of f) r o p).0 x
  unfolding clean_object calls_of
  clean_object_keeps_IsGone r o x p h = ground (arith, remove_object_keeps_gone o x p.env.stored)

  clean_object-rows :
      (r : BackupRecord) (o : CleanupObject) (p : Progress World)
      → (clean_object (calls_of f) r o p).0.env.rows ≡ p.env.rows
  unfolding clean_object calls_of
  clean_object-rows r o p = ground arith

  clean_objects_keeps_IsGone :
      (r : BackupRecord) (x : CleanupObject) (os : List CleanupObject) (p : Progress World)
      → IsGone p x
      → IsGone (clean_objects (calls_of f) r os p).0 x
  unfolding clean_objects
  clean_objects_keeps_IsGone r x [] p h = h
  clean_objects_keeps_IsGone r x (o ∷ os) p h =
      clean_objects_keeps_IsGone r x os (clean_object (calls_of f) r o p).0
        (clean_object_keeps_IsGone r o x p h)

  clean_objects-IsGone :
      (r : BackupRecord) (os : List CleanupObject) (p : Progress World)
      → (clean_objects (calls_of f) r os p).1 ≡ true
      → All (IsGone (clean_objects (calls_of f) r os p).0) os
  unfolding clean_objects
  clean_objects-IsGone r [] p h = tt
  clean_objects-IsGone r (o ∷ os) p h =
      let p' = (clean_object (calls_of f) r o p).0 in
      (
        clean_objects_keeps_IsGone r o os p' (clean_object-IsGone r o p (ground arith)),
        clean_objects-IsGone r os p' (ground arith),
      )

  clean_objects-rows :
      (r : BackupRecord) (os : List CleanupObject) (p : Progress World)
      → (clean_objects (calls_of f) r os p).0.env.rows ≡ p.env.rows
  unfolding clean_objects
  clean_objects-rows r [] p = refl
  clean_objects-rows r (o ∷ os) p =
      clean_objects-rows r os (clean_object (calls_of f) r o p).0 ∙ clean_object-rows r o p

  clean_row-stored :
      (r : BackupRecord) (p : Progress World)
      → (clean_row (calls_of f) r p).env.stored ≡ p.env.stored
  unfolding clean_row calls_of
  clean_row-stored r p = ground arith

  clean_row-rows :
      (r : BackupRecord) (a : ℕ) (p : Progress World)
      → contains (clean_row (calls_of f) r p).env.rows a
        ≡ (contains p.env.rows a && (f.row_fails r.id || not (r.id == a)))
  unfolding clean_row calls_of
  clean_row-rows r a p = ground (arith, contains-remove_row r.id a p.env.rows)

  -- What a record's turn does to the row of an id.
  abbrev RowGone : BackupRecord → ℕ → Progress World → Type 0
  RowGone r a p =
      (r.id ≡ a)
      × (os : List CleanupObject) × (cleanup_objects_for_record r ≡ objects os)
      × All (IsGone p) os

  clean_record-objects :
      (r : BackupRecord) (p : Progress World) (os : List CleanupObject)
      → cleanup_objects_for_record r ≡ objects os
      → clean_record (calls_of f) r p ≡ (
          let q = clean_objects (calls_of f) r os p in
          if q.1 then clean_row (calls_of f) r q.0 else q.0)
  unfolding clean_record
  clean_record-objects r p os e = rw (e, clean_record)

  clean_record-unknown :
      (r : BackupRecord) (p : Progress World)
      → (cleanup_objects_for_record r ≡ decode_error)
        ⊎ (cleanup_objects_for_record r ≡ no_successful_copy)
      → (clean_record (calls_of f) r p).env ≡ p.env
  unfolding clean_record warn
  clean_record-unknown r p (inl e) = rw (e, clean_record)
  clean_record-unknown r p (inr e) = rw (e, clean_record)

  -- A row that goes in a record's turn is that of the record, and its objects are gone.
  clean_record_rows :
      (r : BackupRecord) (a : ℕ) (p : Progress World)
      → contains p.env.rows a ≡ true
      → (contains (clean_record (calls_of f) r p).env.rows a ≡ true)
        ⊎ RowGone r a (clean_record (calls_of f) r p)
  clean_record_rows r a p h = go (cleanup_objects_for_record r) refl
    where
      go :
          (res : ObjectsResult)
          → cleanup_objects_for_record r ≡ res
          → (contains (clean_record (calls_of f) r p).env.rows a ≡ true)
            ⊎ RowGone r a (clean_record (calls_of f) r p)
      go decode_error e = inl (rw (clean_record-unknown r p (inl e)) h)
      go no_successful_copy e = inl (rw (clean_record-unknown r p (inr e)) h)
      go (objects os) e =
          let q = clean_objects (calls_of f) r os p in
          elim (Bool-cases q.1) [
            | inr left ↦
                inl (ground (arith, clean_record-objects r p os e, clean_objects-rows r os p))
            | inl done ↦
                let same : clean_record (calls_of f) r p ≡ clean_row (calls_of f) r q.0 =
                  clean_record-objects r p os e ∙ (rw done refl) in
                elim (Bool-cases (f.row_fails r.id || not (r.id == a))) [
                  | inl kept ↦
                      inl (ground (arith, same, clean_row-rows r a q.0, clean_objects-rows r os p))
                  | inr dropped ↦ inr (
                    ground arith,
                    os,
                    e,
                    subst (λ st. All (λ o. is_stored st o ≡ false) os)
                        (sym
                          (ap (λ (x : Progress World). x.env.stored) same ∙ clean_row-stored r q.0))
                        (clean_objects-IsGone r os p done),
                  )
                ]
          ]

  clean_record_keeps_IsGone :
      (r : BackupRecord) (x : CleanupObject) (p : Progress World)
      → IsGone p x
      → IsGone (clean_record (calls_of f) r p) x
  clean_record_keeps_IsGone r x p h = go (cleanup_objects_for_record r) refl
    where
      go :
          (res : ObjectsResult)
          → cleanup_objects_for_record r ≡ res
          → IsGone (clean_record (calls_of f) r p) x
      go decode_error e = rw (clean_record-unknown r p (inl e)) h
      go no_successful_copy e = rw (clean_record-unknown r p (inr e)) h
      go (objects os) e = ground (
        arith,
        clean_record-objects r p os e,
        clean_row-stored r (clean_objects (calls_of f) r os p).0,
        clean_objects_keeps_IsGone r x os p h,
      )

  clean_records_keeps_IsGone :
      (rs : List BackupRecord) (x : CleanupObject) (p : Progress World)
      → IsGone p x
      → IsGone (clean_records (calls_of f) rs p) x
  unfolding clean_records
  clean_records_keeps_IsGone [] x p h = h
  clean_records_keeps_IsGone (r ∷ rs) x p h =
      clean_records_keeps_IsGone rs x (clean_record (calls_of f) r p)
        (clean_record_keeps_IsGone r x p h)

  All-IsGone :
      (rs : List BackupRecord) (os : List CleanupObject) (p : Progress World)
      → All (IsGone p) os
      → All (IsGone (clean_records (calls_of f) rs p)) os
  All-IsGone rs [] p h = tt
  All-IsGone rs (o ∷ os) p h = (clean_records_keeps_IsGone rs o p h.0, All-IsGone rs os p h.1)

-- A row that a run deletes is that of a candidate, and no object of that candidate is stored any
-- more, whatever fails on the way.
pub clean_records_rows :
    (f : Faults) (rs : List BackupRecord) (a : ℕ) (p : Progress World)
    → contains p.env.rows a ≡ true
    → contains (clean_records (calls_of f) rs p).env.rows a ≡ false
    → (c : BackupRecord) × Member c rs
      × (c.id ≡ a)
      × (os : List CleanupObject) × (cleanup_objects_for_record c ≡ objects os)
      × All (λ o. is_stored (clean_records (calls_of f) rs p).env.stored o ≡ false) os
unfolding clean_records
clean_records_rows f [] a p h gone = absurd (cc)
clean_records_rows f (r ∷ rs) a p h gone = elim (clean_record_rows f r a p h) [
  | inl still ↦
      let (c, m, same, os, e, all) =
        clean_records_rows f rs a (clean_record (calls_of f) r p) still gone in
      (c, inr m, same, os, e, all)
  | inr (same, os, e, all) ↦
      (r, inl refl, same, os, e, All-IsGone f rs os (clean_record (calls_of f) r p) all)
]
