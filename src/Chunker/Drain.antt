-- ===== src/Chunker/Drain.antt =====
-- The inner loop of Split (server/internal/backup/repository_chunker.go): fuel, and how a pass
-- over some bytes relates to a pass over those bytes and more.
use backup_x.Base.{
  ℕ, zero, suc, ◌≤◌, ◌<◌, ◌≡◌, refl, ap, inl, inr, Bool, true, false, List, [], ◌∷◌, ◌++◌, arith,
  length, take, drop, length-append, length-drop, Bool-cases, ◌==◌, if◌then◌else◌,
}
use backup_x.Chunker.{
  Chunker, find_cut_point, Drained, pending, returned, drain, emit_failed, context_cancelled,
}
use backup_x.Chunker.CutPoint.{find_cut_point_bounds, find_cut_point-append, drop-append}

pub take-append {ℓ} :
    {A : Type ℓ} (n : ℕ) (xs ys : List A) → n ≤ length xs → take n (xs ++ ys) ≡ take n xs
take-append zero xs ys h = refl
take-append (suc n) [] ys h = elim h [ ]
take-append (suc n) (x ∷ xs) ys h = ap (◌∷◌ x) (take-append n xs ys (omega arith))

module _ {E : Type 0} (c : Chunker) (cancelled : E → Bool) (emit : E → List ℕ → E × Bool) where
  -- Fuel at least the number of bytes does not matter.
  pub drain_fuel :
      (f g : ℕ) (env : E) (bs : List ℕ) (eof : Bool)
      → length bs ≤ f
      → length bs ≤ g
      → drain c cancelled emit f env bs eof ≡ drain c cancelled emit g env bs eof
  unfolding drain
  drain_fuel zero zero env bs eof h k = refl
  drain_fuel zero (suc g) env [] eof h k = refl
  drain_fuel zero (suc g) env (b ∷ bs) eof h k = absurd (omega arith)
  drain_fuel (suc f) zero env [] eof h k = refl
  drain_fuel (suc f) zero env (b ∷ bs) eof h k = absurd (omega arith)
  drain_fuel (suc f) (suc g) env [] eof h k = refl
  drain_fuel (suc f) (suc g) env (b ∷ bs) eof h k =
      let cut = find_cut_point c (b ∷ bs) eof in
      ground (
        arith,
        length-drop cut (b ∷ bs),
        drain_fuel f g (emit env (take cut (b ∷ bs))).0 (drop cut (b ∷ bs)) eof,
      )

  -- Going on with more bytes after a pass.
  abbrev pub resume : List ℕ → Bool → Drained E → Drained E
  resume more eof (pending env bs) =
      drain c cancelled emit (length (bs ++ more)) env (bs ++ more) eof
  resume more eof (returned env why) = returned env why

  pub drain_nil :
      (f : ℕ) (env : E) (eof : Bool) → drain c cancelled emit f env [] eof ≡ pending env []
  unfolding drain
  drain_nil zero env eof = refl
  drain_nil (suc f) env eof = refl

  drain_cancelled :
      (f : ℕ) (env : E) (b : ℕ) (bs : List ℕ) (eof : Bool)
      → cancelled env ≡ true
      → drain c cancelled emit (suc f) env (b ∷ bs) eof ≡ returned env context_cancelled
  unfolding drain
  drain_cancelled f env b bs eof e = rw e

  drain_stuck :
      (f : ℕ) (env : E) (b : ℕ) (bs : List ℕ) (eof : Bool)
      → cancelled env ≡ false
      → (find_cut_point c (b ∷ bs) eof == 0) ≡ true
      → drain c cancelled emit (suc f) env (b ∷ bs) eof ≡ pending env (b ∷ bs)
  unfolding drain
  drain_stuck f env b bs eof e z = rw (e, z)

  -- What a cut does, once it is known where it falls.
  abbrev cut_at : ℕ → ℕ → E → List ℕ → Bool → Drained E
  cut_at cut f env bs eof =
      let (env', emitted) = emit env (take cut bs) in
      let rest = drain c cancelled emit f env' (drop cut bs) eof in
      if emitted then rest else returned env' emit_failed

  drain_cut :
      (f : ℕ) (env : E) (b : ℕ) (bs : List ℕ) (eof : Bool)
      → cancelled env ≡ false
      → (find_cut_point c (b ∷ bs) eof == 0) ≡ false
      → drain c cancelled emit (suc f) env (b ∷ bs) eof
        ≡ cut_at (find_cut_point c (b ∷ bs) eof) f env (b ∷ bs) eof
  unfolding drain
  drain_cut f env b bs eof e z = rw (e, z)

  cut_at-append :
      (cut f g : ℕ) (env : E) (bs more : List ℕ) (eof : Bool)
      → cut ≤ length bs
      → (let env' = (emit env (take cut bs)).0 in
          drain c cancelled emit f env' (drop cut bs ++ more) eof
          ≡ resume more eof (drain c cancelled emit g env' (drop cut bs) false))
      → cut_at cut f env (bs ++ more) eof ≡ resume more eof (cut_at cut g env bs false)
  cut_at-append cut f g env bs more eof le ih =
      rw (take-append cut bs more le, drop-append cut bs more le)
        (elim (Bool-cases (emit env (take cut bs)).1) [ inl e ↦ rw e ih | inr e ↦ rw e refl ])

  -- A pass over the pending bytes and more is the pass over the pending bytes, resumed.
  pub drain-append :
      (f g : ℕ) (env : E) (bs more : List ℕ) (eof : Bool)
      → c.min_size ≤ c.max_size
      → length (bs ++ more) ≤ f
      → length bs ≤ g
      → drain c cancelled emit f env (bs ++ more) eof
        ≡ resume more eof (drain c cancelled emit g env bs false)
  drain-append f zero env [] more eof m h k =
      rw (drain_nil zero env false) (drain_fuel f _ env more eof h (omega arith))
  drain-append f zero env (b ∷ bs) more eof m h k = absurd (omega arith)
  drain-append f (suc g) env [] more eof m h k =
      rw (drain_nil (suc g) env false) (drain_fuel f _ env more eof h (omega arith))
  drain-append zero (suc g) env (b ∷ bs) more eof m h k = absurd (omega arith)
  drain-append (suc f) (suc g) env (b ∷ bs) more eof m h k = elim (Bool-cases (cancelled env)) [
    | inl stop ↦
        rw (drain_cancelled f env b (bs ++ more) eof stop, drain_cancelled g env b bs false stop)
    | inr go ↦ elim (Bool-cases (find_cut_point c (b ∷ bs) false == 0)) [
      | inl e ↦ rw (drain_stuck g env b bs false go e) (drain_fuel _ _ env _ eof h (omega arith))
      | inr e ↦
          let pos : 0 < find_cut_point c (b ∷ bs) false = ground arith in
          let same : find_cut_point c (b ∷ (bs ++ more)) eof ≡ find_cut_point c (b ∷ bs) false =
            find_cut_point-append c (b ∷ bs) more eof m pos in
          let cut = find_cut_point c (b ∷ bs) false in
          let le : cut ≤ length (b ∷ bs) = (find_cut_point_bounds c (b ∷ bs) false m).0 in
          rw
            (
              drain_cut f env b (bs ++ more) eof go (rw same e),
              drain_cut g env b bs false go e,
              same,
            )
            (cut_at-append cut f g env (b ∷ bs) more eof le (
              drain-append f g (emit env (take cut (b ∷ bs))).0 (drop cut (b ∷ bs)) more eof m
                (omega (
                  arith,
                  length-drop cut (b ∷ bs),
                  length-append (drop cut (b ∷ bs)) more,
                  length-append bs more,
                ))
                (omega (arith, length-drop cut (b ∷ bs)))))
    ]
  ]
