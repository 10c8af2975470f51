-- ===== src/Retention/Select/Gfs.antt =====
-- What one tier of the grandfather-father-son policy keeps (keepTier in selectGFSToDelete of
-- server/internal/backup/retention/service.go).
use backup_x.Base.{
  ℕ, ◌+◌, ◌-◌, ◌≤◌, ◌≡◌, refl, sym, ap, subst, ◌∙◌, ◌⊎◌, ◌≢◌, inl, inr, true, false, List, [], ◌∷◌,
  Option, none, some, map, All, All-imp, arith, leb, length, contains, Bool-cases,
}
use mathlib.Core.Option.{some-injective}
use backup_x.Base.Int.{ℤ, is_positive, pos_part}
use backup_x.Base.Text.{text_eq_refl, text_eq→eq}
use backup_x.Retention.Select.{BackupRecord, record_time, same_period, tier_loop, keep_tier}
use backup_x.Retention.Select.Records.{Member, All-Member}
use backup_x.Retention.Select.Order.{IsDescending}

tier_loop-length :
    (count : ℕ) (key : ℕ → List ℕ) (periods : ℕ) (last : Option (List ℕ)) (rs : List BackupRecord)
    → length (tier_loop count key periods last rs) ≤ count - periods
unfolding tier_loop
tier_loop-length count key periods last [] = omega arith
tier_loop-length count key periods last (r ∷ rs) = ground (
  arith,
  tier_loop-length count key periods last rs,
  tier_loop-length count key (periods + 1) (some (key (record_time r))) rs,
)

-- Some record that the tier keeps is of the period of `r` and no older than it.
abbrev pub IsRepresented : (ℕ → List ℕ) → List BackupRecord → List ℕ → BackupRecord → Type 0
IsRepresented key active kept r =
    (s : BackupRecord) × Member s active
    × (contains kept s.id ≡ true)
    × (key (record_time s) ≡ key (record_time r))
    × (record_time r ≤ record_time s)

same_period→eq : (last : Option (List ℕ)) (p : List ℕ) → same_period last p ≡ true → last ≡ some p
unfolding same_period
same_period→eq none p h = cc
same_period→eq (some q) p h = ap some (sym (text_eq→eq p q h))

same_period-ne : (last : Option (List ℕ)) (p : List ℕ) → same_period last p ≡ false → last ≢ some p
unfolding same_period
same_period-ne none p h e = absurd (cc)
same_period-ne (some q) p h e = ground (arith, h, text_eq_refl p, some-injective _ _ e)

IsRepresented-skip :
    (key : ℕ → List ℕ) (x : BackupRecord) (active : List BackupRecord) (kept : List ℕ)
    (r : BackupRecord)
    → IsRepresented key active kept r
    → IsRepresented key (x ∷ active) kept r
IsRepresented-skip key x active kept r (s, m, k, e, t) = (s, inr m, k, e, t)

IsRepresented-keep :
    (key : ℕ → List ℕ) (x : BackupRecord) (active : List BackupRecord) (kept : List ℕ)
    (r : BackupRecord)
    → IsRepresented key active kept r
    → IsRepresented key (x ∷ active) (x.id ∷ kept) r
IsRepresented-keep key x active kept r (s, m, k, e, t) = (s, inr m, ground arith, e, t)

-- No record is of the period of the one before it, nor the first of the period `last`.
abbrev pub NewPeriods : (ℕ → List ℕ) → Option (List ℕ) → List BackupRecord → Type 0
NewPeriods key last [] = Unit
NewPeriods key last (s ∷ ss) =
    (last ≢ some (key (record_time s))) × NewPeriods key (some (key (record_time s))) ss

abbrev pub ids_of : List BackupRecord → List ℕ
ids_of records = map (λ (s : BackupRecord). s.id) records

-- What a tier has done for a record: its period is represented, or the limit is used up by records
-- that are all at least as new.
abbrev pub Served : ℕ → (ℕ → List ℕ) → List BackupRecord → List BackupRecord → BackupRecord → Type 0
Served limit key active kept r =
    IsRepresented key active (ids_of kept) r
    ⊎ ((length kept ≡ limit) × All (λ (s : BackupRecord). record_time r ≤ record_time s) kept)

-- What the loop does, when it starts after a record of the period `last`.
record IsPass (count : ℕ) (key : ℕ → List ℕ) (periods : ℕ) (last : Option (List ℕ))
    (rs : List BackupRecord) : Type 0 where
  kept : List BackupRecord
  keeps : tier_loop count key periods last rs ≡ ids_of kept
  listed : All (λ (s : BackupRecord). Member s rs) kept
  apart : NewPeriods key last kept
  served :
      (r : BackupRecord)
      → Member r rs
      → (last ≡ some (key (record_time r))) ⊎ Served (count - periods) key rs kept r

module _ (count : ℕ) (key : ℕ → List ℕ) (periods : ℕ) (last : Option (List ℕ)) (x : BackupRecord)
    (rs : List BackupRecord) where
  tier_loop_same :
      same_period last (key (record_time x)) ≡ true
      → tier_loop count key periods last (x ∷ rs) ≡ tier_loop count key periods last rs
  unfolding tier_loop
  tier_loop_same e = rw e

  tier_loop_full :
      same_period last (key (record_time x)) ≡ false
      → leb count periods ≡ true
      → tier_loop count key periods last (x ∷ rs) ≡ []
  unfolding tier_loop
  tier_loop_full e f = rw (e, f)

  tier_loop_new :
      same_period last (key (record_time x)) ≡ false
      → leb count periods ≡ false
      → tier_loop count key periods last (x ∷ rs)
        ≡ x.id ∷ tier_loop count key (periods + 1) (some (key (record_time x))) rs
  unfolding tier_loop
  tier_loop_new e f = rw (e, f)

IsPass-same :
    (count : ℕ) (key : ℕ → List ℕ) (periods : ℕ) (last : Option (List ℕ)) (x : BackupRecord)
    (rs : List BackupRecord)
    → same_period last (key (record_time x)) ≡ true
    → IsPass count key periods last rs
    → IsPass count key periods last (x ∷ rs)
IsPass-same count key periods last x rs e l = record {
  kept = l.kept;
  keeps = tier_loop_same count key periods last x rs e ∙ l.keeps;
  listed = All-imp _ _ (λ s m. inr m) l.kept l.listed;
  apart = l.apart;
  served = λ r m. elim m [
    | inl q ↦ inl (
        same_period→eq last (key (record_time x)) e
        ∙ ap (λ (y : BackupRecord). some (key (record_time y))) (sym q))
    | inr n ↦ elim (l.served r n) [
      | inl before ↦ inl before
      | inr (inl rep) ↦ inr (inl (IsRepresented-skip key x rs (ids_of l.kept) r rep))
      | inr (inr full) ↦ inr (inr full)
    ]
  ];
}

IsPass-full :
    (count : ℕ) (key : ℕ → List ℕ) (periods : ℕ) (last : Option (List ℕ)) (x : BackupRecord)
    (rs : List BackupRecord)
    → same_period last (key (record_time x)) ≡ false
    → leb count periods ≡ true
    → IsPass count key periods last (x ∷ rs)
IsPass-full count key periods last x rs e f = record {
  kept = [];
  keeps = tier_loop_full count key periods last x rs e f;
  listed = tt;
  apart = tt;
  served = λ r m. inr (inr (ground (arith, f), tt));
}

IsPass-new :
    (count : ℕ) (key : ℕ → List ℕ) (periods : ℕ) (last : Option (List ℕ)) (x : BackupRecord)
    (rs : List BackupRecord)
    → IsDescending (x ∷ rs)
    → same_period last (key (record_time x)) ≡ false
    → leb count periods ≡ false
    → IsPass count key (periods + 1) (some (key (record_time x))) rs
    → IsPass count key periods last (x ∷ rs)
IsPass-new count key periods last x rs d e f l =
    let older : (r : BackupRecord) → Member r rs → record_time r ≤ record_time x =
      λ r n. All-Member (λ s. record_time s ≤ record_time x) r rs d.0 n in
    record {
      kept = x ∷ l.kept;
      keeps = tier_loop_new count key periods last x rs e f ∙ ap (λ ids. x.id ∷ ids) l.keeps;
      listed = (inl refl, All-imp _ _ (λ s m. inr m) l.kept l.listed);
      apart = (same_period-ne last (key (record_time x)) e, l.apart);
      served = λ r m. inr (elim m [
        | inl q ↦ inl (
          x,
          inl refl,
          ground arith,
          ap (λ (y : BackupRecord). key (record_time y)) (sym q),
          omega (arith, ap record_time q),
        )
        | inr n ↦ elim (l.served r n) [
          | inl same ↦ inl (x, inl refl, ground arith, cc, older r n)
          | inr (inl rep) ↦ inl (IsRepresented-keep key x rs (ids_of l.kept) r rep)
          | inr (inr (full, newer)) ↦ inr (ground (arith, full, f), (older r n, newer))
        ]
      ]);
    }

tier_loop-IsPass :
    (count : ℕ) (key : ℕ → List ℕ) (periods : ℕ) (last : Option (List ℕ)) (rs : List BackupRecord)
    → IsDescending rs
    → IsPass count key periods last rs
unfolding tier_loop
tier_loop-IsPass count key periods last [] d = record {
  kept = [];
  keeps = refl;
  listed = tt;
  apart = tt;
  served = λ r m. elim m [ ];
}
tier_loop-IsPass count key periods last (x ∷ rs) d =
    elim (Bool-cases (same_period last (key (record_time x)))) [
      | inl e ↦
          IsPass-same count key periods last x rs e (tier_loop-IsPass count key periods last rs d.1)
      | inr e ↦ elim (Bool-cases (leb count periods)) [
        | inl f ↦ IsPass-full count key periods last x rs e f
        | inr f ↦
            IsPass-new count key periods last x rs d e f
              (tier_loop-IsPass count key (periods + 1) (some (key (record_time x))) rs d.1)
      ]
    ]

-- A tier with a positive limit keeps records of the list, no two in a row of one period; and every
-- record of the list is of the period of one that is kept and at least as new, or the tier keeps
-- as many as its limit, all of them at least as new as this record. The list is from new to old.
pub keep_tier-Served :
    (count : ℤ) (key : ℕ → List ℕ) (active : List BackupRecord)
    → is_positive count ≡ true
    → IsDescending active
    → (kept : List BackupRecord) × (keep_tier count key active ≡ ids_of kept)
      × All (λ (s : BackupRecord). Member s active) kept
      × NewPeriods key none kept
      × ((r : BackupRecord) → Member r active → Served (pos_part count) key active kept r)
unfolding keep_tier
keep_tier-Served count key active h d =
    let l = tier_loop-IsPass (pos_part count) key 0 none active d in
    (
      l.kept,
      ground (arith, h, l.keeps),
      l.listed,
      l.apart,
      λ r m. elim (l.served r m) [
        | inl bad ↦ absurd (cc)
        | inr served ↦ subst (λ n. Served n key active l.kept r) (omega arith) served
      ],
    )

pub keep_tier-length :
    (count : ℤ) (key : ℕ → List ℕ) (active : List BackupRecord)
    → length (keep_tier count key active) ≤ pos_part count
unfolding keep_tier
keep_tier-length count key active =
    ground (arith, tier_loop-length (pos_part count) key 0 none active)

pub keep_tier_first :
    (count : ℤ) (key : ℕ → List ℕ) (r : BackupRecord) (rs : List BackupRecord)
    → is_positive count ≡ true
    → contains (keep_tier count key (r ∷ rs)) r.id ≡ true
unfolding keep_tier tier_loop same_period
keep_tier_first count key r rs h = ground arith
