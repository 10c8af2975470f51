-- ===== src/Retention/Select/Records.antt =====
-- Lists of records whose ids are all different, as the primary key makes them.
use backup_x.Base.{
  ℕ, ◌≡◌, refl, ◌⊎◌, inl, inr, Bool, true, false, List, [], ◌∷◌, ◌++◌, arith, ◌==◌, filter,
  contains, All, subst, sym, Bool-cases, ==_iff,
}
use backup_x.Retention.Select.{BackupRecord, ids}

abbrev pub Distinct : List BackupRecord → Type 0
Distinct [] = Unit
Distinct (r ∷ rs) = (contains (ids rs) r.id ≡ false) × Distinct rs

abbrev pub Member : BackupRecord → List BackupRecord → Type 0
Member r [] = ⊥
Member r (s ∷ rs) = (r ≡ s) ⊎ Member r rs

pub contains-Member :
    (r : BackupRecord) (rs : List BackupRecord) → Member r rs → contains (ids rs) r.id ≡ true
contains-Member r [] m = elim m [ ]
contains-Member r (s ∷ rs) (inl e) = ground arith
contains-Member r (s ∷ rs) (inr m) = ground (arith, contains-Member r rs m)

-- The record of an id is the only one.
pub Distinct-eq :
    (r s : BackupRecord) (rs : List BackupRecord)
    → Distinct rs
    → Member r rs
    → Member s rs
    → r.id ≡ s.id
    → r ≡ s
Distinct-eq r s [] d m n e = elim m [ ]
Distinct-eq r s (x ∷ rs) d (inl p) (inl q) e = ground arith
Distinct-eq r s (x ∷ rs) d (inl p) (inr n) e = ground (arith, contains-Member s rs n)
Distinct-eq r s (x ∷ rs) d (inr m) (inl q) e = ground (arith, contains-Member r rs m)
Distinct-eq r s (x ∷ rs) d (inr m) (inr n) e = Distinct-eq r s rs d.1 m n e

-- Whatever is listed by all of the records of `rs` is listed by each of them.
pub All-Member {κ} :
    (P : BackupRecord → Type κ) (r : BackupRecord) (rs : List BackupRecord)
    → All P rs
    → Member r rs
    → P r
All-Member P r [] a m = elim m [ ]
All-Member P r (s ∷ rs) a (inl e) = subst P (sym e) a.0
All-Member P r (s ∷ rs) a (inr m) = All-Member P r rs a.1 m

pub All-of_Member {κ} :
    (P : BackupRecord → Type κ) (rs : List BackupRecord)
    → ((r : BackupRecord) → Member r rs → P r)
    → All P rs
All-of_Member P [] h = tt
All-of_Member P (r ∷ rs) h = (h r (inl refl), All-of_Member P rs (λ s m. h s (inr m)))

-- A filter keeps a record exactly when its test passes.
pub Member-filter :
    (p : BackupRecord → Bool) (r : BackupRecord) (rs : List BackupRecord)
    → Member r (filter p rs)
    → Member r rs × (p r ≡ true)
Member-filter p r [] m = elim m [ ]
Member-filter p r (s ∷ rs) m = ground (arith, Member-filter p r rs)

pub Member-filter_of :
    (p : BackupRecord → Bool) (r : BackupRecord) (rs : List BackupRecord)
    → Member r rs
    → p r ≡ true
    → Member r (filter p rs)
Member-filter_of p r [] m e = elim m [ ]
Member-filter_of p r (s ∷ rs) m e = ground (arith, Member-filter_of p r rs)

pub contains-filter :
    (p : BackupRecord → Bool) (a : ℕ) (rs : List BackupRecord)
    → contains (ids rs) a ≡ false
    → contains (ids (filter p rs)) a ≡ false
contains-filter p a [] h = refl
contains-filter p a (r ∷ rs) h = ground (arith, contains-filter p a rs)

pub Distinct-filter :
    (p : BackupRecord → Bool) (rs : List BackupRecord) → Distinct rs → Distinct (filter p rs)
Distinct-filter p [] d = tt
Distinct-filter p (r ∷ rs) d =
    ground (arith, contains-filter p r.id rs d.0, Distinct-filter p rs d.1)

-- An id that the list contains is the id of some record of it.
pub Member-of_contains :
    (a : ℕ) (rs : List BackupRecord)
    → contains (ids rs) a ≡ true
    → (r : BackupRecord) × Member r rs × (r.id ≡ a)
Member-of_contains a [] h = cc
Member-of_contains a (r ∷ rs) h = elim (Bool-cases (r.id == a)) [
  | inl e ↦ (r, inl refl, (==_iff _ _).0 e)
  | inr e ↦ let (s, m, q) = Member-of_contains a rs (ground arith) in (s, inr m, q)
]

pub Member-append :
    (r : BackupRecord) (before after : List BackupRecord) → Member r (before ++ r ∷ after)
Member-append r [] after = inl refl
Member-append r (b ∷ before) after = inr (Member-append r before after)
