-- ===== src/Retention/Select/Protect.antt =====
-- Differential chains and locks (protectDifferentialBases and the selection in cleanup, in
-- server/internal/backup/retention/service.go).
use backup_x.Base.{
  ℕ, ◌≡◌, ◌≢◌, refl, sym, subst, inl, inr, true, false, List, [], ◌∷◌, arith, if◌then◌else◌, filter,
  contains, Bool-cases,
}
use backup_x.Retention.Select.{
  BackupRecord, full, differential, ids, is_deletable, is_empty, protected_ids,
  protect_differential_bases,
}
use backup_x.Retention.Select.Records.{
  Distinct, Distinct-eq, Member, Member-filter, Member-filter_of, contains-Member,
  Member-of_contains,
}

protected_ids_head :
    (deleting : List ℕ) (r : BackupRecord) (all : List BackupRecord)
    → r.backup_kind ≡ differential
    → r.base_record_id ≢ 0
    → contains deleting r.id ≡ false
    → contains (protected_ids deleting (r ∷ all)) r.base_record_id ≡ true
unfolding protected_ids
protected_ids_head deleting r all k b h = ground arith

protected_ids_more :
    (deleting : List ℕ) (x : BackupRecord) (a : ℕ) (all : List BackupRecord)
    → contains (protected_ids deleting all) a ≡ true
    → contains (protected_ids deleting (x ∷ all)) a ≡ true
unfolding protected_ids
protected_ids_more deleting x a all h = ground arith

differential_deletable :
    (protected : List ℕ) (r : BackupRecord)
    → r.backup_kind ≡ differential
    → is_deletable protected r ≡ true
unfolding is_deletable
differential_deletable protected r k = ground arith

full_not_deletable :
    (protected : List ℕ) (c : BackupRecord)
    → c.backup_kind ≡ full
    → contains protected c.id ≡ true
    → is_deletable protected c ≡ true
    → ⊥
unfolding is_deletable
full_not_deletable protected c f h p = ground arith

-- The base of a differential that is not deleted is protected.
contains-protected_ids :
    (deleting : List ℕ) (r : BackupRecord) (all : List BackupRecord)
    → Member r all
    → r.backup_kind ≡ differential
    → r.base_record_id ≢ 0
    → contains deleting r.id ≡ false
    → contains (protected_ids deleting all) r.base_record_id ≡ true
contains-protected_ids deleting r [] m k b h = elim m [ ]
contains-protected_ids deleting r (x ∷ all) (inl e) k b h =
    subst (λ y. contains (protected_ids deleting (y ∷ all)) r.base_record_id ≡ true) e
      (protected_ids_head deleting r all k b h)
contains-protected_ids deleting r (x ∷ all) (inr m) k b h =
    protected_ids_more deleting x r.base_record_id all
      (contains-protected_ids deleting r all m k b h)

filter_nothing_protected :
    (candidates : List BackupRecord) → filter (is_deletable []) candidates ≡ candidates
unfolding is_deletable
filter_nothing_protected [] = refl
filter_nothing_protected (r ∷ rs) = ground (arith, filter_nothing_protected rs)

protect-cases :
    (protected : List ℕ) (candidates : List BackupRecord)
    → (if is_empty protected then candidates else filter (is_deletable protected) candidates)
      ≡ filter (is_deletable protected) candidates
protect-cases [] candidates = sym (filter_nothing_protected candidates)
protect-cases (p ∷ ps) candidates = refl

-- What the protection does, whether or not it filters.
pub protect-filter :
    (all candidates : List BackupRecord)
    → protect_differential_bases all candidates
      ≡ filter (is_deletable (protected_ids (ids candidates) all)) candidates
unfolding protect_differential_bases
protect-filter all candidates = protect-cases (protected_ids (ids candidates) all) candidates

-- A record that was a candidate and is no longer one is a full record.
left_out_full :
    (all candidates : List BackupRecord) (r : BackupRecord)
    → Distinct all
    → ((x : BackupRecord) → Member x candidates → Member x all)
    → Member r all
    → contains (ids (protect_differential_bases all candidates)) r.id ≡ false
    → r.backup_kind ≡ differential
    → contains (ids candidates) r.id ≡ false
left_out_full all candidates r d sub m out k = elim (Bool-cases (contains (ids candidates) r.id)) [
  | inr e ↦ e
  | inl e ↦
      let (x, in_candidates, same_id) = Member-of_contains r.id candidates e in
      let same : x ≡ r = Distinct-eq x r all d (sub x in_candidates) m same_id in
      let passes : is_deletable (protected_ids (ids candidates) all) r ≡ true =
        differential_deletable (protected_ids (ids candidates) all) r k in
      let still : Member r (protect_differential_bases all candidates) =
        rw (protect-filter all candidates) (
          Member-filter_of _ r candidates (subst (λ y. Member y candidates) same in_candidates)
            passes) in
      absurd (cc (contains-Member r (protect_differential_bases all candidates) still))
]

-- While a differential of the list is not to be deleted, no full record with its base's id is.
pub protect_differential_bases_chain :
    (all candidates : List BackupRecord) (r : BackupRecord)
    → Distinct all
    → ((x : BackupRecord) → Member x candidates → Member x all)
    → Member r all
    → contains (ids (protect_differential_bases all candidates)) r.id ≡ false
    → r.backup_kind ≡ differential
    → r.base_record_id ≢ 0
    → (c : BackupRecord) → Member c (protect_differential_bases all candidates)
    → c.backup_kind ≡ full
    → c.id ≢ r.base_record_id
protect_differential_bases_chain all candidates r d sub m out k b c n f e =
    let protected = protected_ids (ids candidates) all in
    let held : contains protected r.base_record_id ≡ true =
      contains-protected_ids (ids candidates) r all m k b
        (left_out_full all candidates r d sub m out k) in
    let passed : is_deletable protected c ≡ true =
      (Member-filter (is_deletable protected) c candidates
        (rw (protect-filter all candidates) at n)).1 in
    absurd (full_not_deletable protected c f (rw e held) passed)
