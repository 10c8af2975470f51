-- ===== src/Chunker/CutPoint.antt =====
-- Bounds and stability of findCutPoint (server/internal/backup/repository_chunker.go).
use backup_x.Base.{
  ℕ, zero, suc, ◌+◌, ◌≤◌, ◌<◌, min, ◌≡◌, refl, ◌⊎◌, inl, inr, Bool, true, false, List, [], ◌∷◌,
  ◌++◌, Option, some, arith, length, drop, length-append, length-drop, Option-cases,
}
use backup_x.Chunker.{Chunker, roll, scan, find_cut_point}

-- A cut lies behind a byte that was scanned, below the limit.
pub scan_bounds :
    (c : Chunker) (limit index hash : ℕ) (bs : List ℕ) (n : ℕ)
    → scan c limit index hash bs ≡ some n
    → (index < n) × (n ≤ limit) × (n ≤ index + length bs)
unfolding scan
scan_bounds c limit index hash [] n h = ground arith
scan_bounds c limit index hash (b ∷ bs) n h =
    ground (arith, scan_bounds c limit (index + 1) (roll c hash b) bs n)

-- A cut that was found is found again when more bytes follow and the limit grows.
scan_more :
    (c : Chunker) (limit limit' index hash : ℕ) (bs more : List ℕ) (n : ℕ)
    → scan c limit index hash bs ≡ some n
    → limit ≤ limit'
    → scan c limit' index hash (bs ++ more) ≡ some n
unfolding scan
scan_more c limit limit' index hash [] more n h le = ground arith
scan_more c limit limit' index hash (b ∷ bs) more n h le =
    ground (arith, scan_more c limit limit' (index + 1) (roll c hash b) bs more n)

-- Bytes behind the limit are not read.
scan_past :
    (c : Chunker) (limit index hash : ℕ) (bs more : List ℕ)
    → limit ≤ index + length bs
    → scan c limit index hash (bs ++ more) ≡ scan c limit index hash bs
unfolding scan
scan_past c limit index hash [] [] le = refl
scan_past c limit index hash [] (x ∷ more) le = ground arith
scan_past c limit index hash (b ∷ bs) more le =
    ground (arith, scan_past c limit (index + 1) (roll c hash b) bs more)

pub drop-append {ℓ} :
    {A : Type ℓ} (n : ℕ) (xs ys : List A) → n ≤ length xs → drop n (xs ++ ys) ≡ drop n xs ++ ys
drop-append zero xs ys h = refl
drop-append (suc n) [] ys h = elim h [ ]
drop-append (suc n) (x ∷ xs) ys h = drop-append n xs ys (omega arith)

cut_bounds :
    (c : Chunker) (bs : List ℕ) (eof : Bool)
    → c.min_size ≤ c.max_size
    → let cut = find_cut_point c bs eof in
      (cut ≤ length bs)
      × (cut ≤ c.max_size)
      × (((eof ≡ true) × (cut ≡ length bs))
          ⊎ (c.min_size < cut)
          ⊎ (cut ≡ c.max_size)
          ⊎ ((eof ≡ false) × (cut ≡ 0)))
      × ((eof ≡ true) → (0 < length bs) → (0 < c.max_size) → 0 < cut)
unfolding find_cut_point
cut_bounds c bs eof h =
    elim (Option-cases (scan c (min (length bs) c.max_size) c.min_size 0 (drop c.min_size bs))) [
      | inl e ↦ rw e (ground (arith))
      | inr (n, e) ↦ rw e (ground (arith, scan_bounds c _ _ _ _ n e, length-drop c.min_size bs))
    ]

-- The search over the pending bytes, and the same search when more bytes have arrived.
abbrev searched : Chunker → List ℕ → Option ℕ
searched c bs = scan c (min (length bs) c.max_size) c.min_size 0 (drop c.min_size bs)

searched-append_found :
    (c : Chunker) (bs more : List ℕ) (n : ℕ)
    → c.min_size ≤ length bs
    → searched c bs ≡ some n
    → searched c (bs ++ more) ≡ some n
searched-append_found c bs more n h e = rw (drop-append c.min_size bs more h) (
    scan_more c _ _ c.min_size 0 (drop c.min_size bs) more n e
      (omega (arith, length-append bs more)))

searched-append_full :
    (c : Chunker) (bs more : List ℕ)
    → c.min_size ≤ c.max_size
    → c.max_size ≤ length bs
    → searched c (bs ++ more) ≡ searched c bs
searched-append_full c bs more h full =
    rw (drop-append c.min_size bs more (omega arith), min_full, min_full')
      (scan_past c c.max_size c.min_size 0 (drop c.min_size bs) more
        (omega (arith, length-drop c.min_size bs)))
  where
    min_full : min (length (bs ++ more)) c.max_size ≡ c.max_size
    min_full = omega (arith, length-append bs more)

    min_full' : min (length bs) c.max_size ≡ c.max_size
    min_full' = omega arith

-- A cut point that was found before the end of the source does not depend on what follows.
pub find_cut_point-append :
    (c : Chunker) (bs more : List ℕ) (eof : Bool)
    → c.min_size ≤ c.max_size
    → 0 < find_cut_point c bs false
    → find_cut_point c (bs ++ more) eof ≡ find_cut_point c bs false
unfolding find_cut_point
find_cut_point-append c bs more eof h pos = elim (Option-cases (searched c bs)) [
  | inl e ↦ ground (arith, e, length-append bs more, searched-append_full c bs more)
  | inr (n, e) ↦ ground (arith, e, length-append bs more, searched-append_found c bs more n)
]

-- Every cut is within the pending bytes and the maximum, above the minimum unless it is the maximum
-- or takes the last bytes of the source, and 0 only when more bytes can come. A cut before the end
-- of the source stays the same whatever bytes follow.
pub find_cut_point_bounds :
    (c : Chunker) (bs : List ℕ) (eof : Bool)
    → c.min_size ≤ c.max_size
    → let cut = find_cut_point c bs eof in
      (cut ≤ length bs)
      × (cut ≤ c.max_size)
      × (((eof ≡ true) × (cut ≡ length bs))
          ⊎ (c.min_size < cut)
          ⊎ (cut ≡ c.max_size)
          ⊎ ((eof ≡ false) × (cut ≡ 0)))
      × ((eof ≡ true) → (0 < length bs) → (0 < c.max_size) → 0 < cut)
      × ((eof ≡ false)
          → (0 < cut)
          → (more : List ℕ) (eof' : Bool) → find_cut_point c (bs ++ more) eof' ≡ cut)
find_cut_point_bounds c bs eof h =
    let (inside, small, kind, positive) = cut_bounds c bs eof h in
    (
      inside,
      small,
      kind,
      positive,
      λ more_comes found more eof'. stays eof more_comes found more eof',
    )
  where
    stays :
        (e : Bool)
        → e ≡ false
        → 0 < find_cut_point c bs e
        → (more : List ℕ) (eof' : Bool) → find_cut_point c (bs ++ more) eof' ≡ find_cut_point c bs e
    stays true more_comes found more eof' = absurd (ground (arith, more_comes))
    stays false more_comes found more eof' = find_cut_point-append c bs more eof' h found
