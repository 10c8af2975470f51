-- ===== src/Chunker/Invariant.antt =====
-- A rule for what the callback of Split keeps true while the bytes of a source pass through it
-- (server/internal/backup/repository_chunker.go).
use mathlib.Core.List.{append_assoc, append-nil}
use backup_x.Base.{
  ℕ, zero, suc, ◌≤◌, ◌≡◌, ◌≢◌, ◌⊎◌, refl, sym, ◌∙◌, ap, subst, Bool, true, false, inl, inr, List,
  [], ◌∷◌, ◌++◌, arith, length, length-take, take-append-drop, take, drop, ◌==◌, Bool-cases,
}
use backup_x.Chunker.{
  Chunker, find_cut_point, Drained, pending, returned, drain, finish, finished, SplitEnd, Source,
  read, last, broken, split, split_from,
}
use backup_x.Chunker.CutPoint.{find_cut_point_bounds}
use backup_x.Chunker.Streaming.{IsComplete, content, split_reads_irrelevant}

module _ {E : Type 0} (c : Chunker) (cancelled : E → Bool) (emit : E → List ℕ → E × Bool)
    (P : E → List ℕ → Type 0)
    (step : (env : E) (done chunk : List ℕ)
      → P env done
      → length chunk ≤ c.max_size
      → P (emit env chunk).0 (done ++ chunk)) where
  -- A pass that does not fail goes on after a cut, or has no cut to make.
  drain_cases :
      (fuel : ℕ) (env : E) (b : ℕ) (bs : List ℕ)
      → let bytes = b ∷ bs in
        let cut = find_cut_point c bytes true in
        let sent = emit env (take cut bytes) in
        let whole = drain c cancelled emit (suc fuel) env bytes true in
        ((finish c cancelled emit whole).1 ≢ finished)
        ⊎ (whole ≡ drain c cancelled emit fuel sent.0 (drop cut bytes) true)
  unfolding drain finish
  drain_cases fuel env b bs = elim (Bool-cases (cancelled env)) [
    | inl stop ↦ inl (λ e. ground (arith, stop, e))
    | inr on ↦ elim (Bool-cases (find_cut_point c (b ∷ bs) true == 0)) [
      | inl none_found ↦ inl (λ e. ground (arith, on, none_found, e))
      | inr found ↦
          elim (Bool-cases (emit env (take (find_cut_point c (b ∷ bs) true) (b ∷ bs))).1) [
            | inl sent ↦ inr (rw (on, found, sent))
            | inr refused ↦ inl (λ e. ground (arith, on, found, refused, e))
          ]
    ]
  ]

  drain_keeps :
      (fuel : ℕ) (env : E) (done bytes : List ℕ)
      → c.min_size ≤ c.max_size
      → P env done
      → (finish c cancelled emit (drain c cancelled emit fuel env bytes true)).1 ≡ finished
      → P (finish c cancelled emit (drain c cancelled emit fuel env bytes true)).0 (done ++ bytes)
  unfolding drain finish
  drain_keeps zero env done [] m p ends = subst (P env) (sym (append-nil done)) p
  drain_keeps zero env done (b ∷ bs) m p ends = absurd (cc)
  drain_keeps (suc fuel) env done [] m p ends = subst (P env) (sym (append-nil done)) p
  drain_keeps (suc fuel) env done (b ∷ bs) m p ends = elim (drain_cases fuel env b bs) [
    | inl fails ↦ absurd (fails ends)
    | inr same ↦
        let bytes : List ℕ = b ∷ bs in
        let cut = find_cut_point c bytes true in
        let env' = (emit env (take cut bytes)).0 in
        let small : length (take cut bytes) ≤ c.max_size =
          omega (arith, length-take cut bytes, (find_cut_point_bounds c bytes true m).1) in
        let rest =
          drain_keeps fuel env' (done ++ take cut bytes) (drop cut bytes) m
            (step env done (take cut bytes) p small)
            (ap (λ d. (finish c cancelled emit d).1) (sym same) ∙ ends) in
        subst (λ d. P (finish c cancelled emit d).0 (done ++ bytes)) (sym same)
          (subst (P _)
            (append_assoc done (take cut bytes) (drop cut bytes)
              ∙ ap (◌++◌ done) (take-append-drop cut bytes))
            rest)
  ]

  -- When Split returns without an error, what the callback keeps true holds of the whole source.
  pub split_keeps :
      (env : E) (source : Source)
      → c.min_size ≤ c.max_size
      → IsComplete source
      → P env []
      → (split c cancelled emit env source).1 ≡ finished
      → P (split c cancelled emit env source).0 (content source)
  unfolding split split_from
  split_keeps env source m h p ends =
      let same = split_reads_irrelevant c cancelled emit env source m h in
      let bytes = content source in
      subst (λ r. P r.0 bytes) (sym same)
        (drain_keeps (length bytes) env [] bytes m p
          (ap (λ (r : E × SplitEnd). r.1) (sym same) ∙ ends))

abbrev ends_well : SplitEnd → Bool
ends_well finished = true
ends_well _ = false

abbrev returns_well : {E : Type 0} → Drained E → Bool
returns_well (pending env bytes) = false
returns_well (returned env why) = ends_well why

module _ {E : Type 0} (c : Chunker) (cancelled : E → Bool) (emit : E → List ℕ → E × Bool) where
  drain_never_ends :
      (fuel : ℕ) (env : E) (bytes : List ℕ) (eof : Bool)
      → returns_well (drain c cancelled emit fuel env bytes eof) ≡ false
  unfolding drain
  drain_never_ends zero env bytes eof = refl
  drain_never_ends (suc fuel) env [] eof = refl
  drain_never_ends (suc fuel) env (b ∷ bs) eof =
      let cut = find_cut_point c (b ∷ bs) eof in
      ground (arith, drain_never_ends fuel (emit env (take cut (b ∷ bs))).0 (drop cut (b ∷ bs)) eof)

  pass_ends :
      (source : Source) (d : Drained E)
      → returns_well d ≡ false
      → ((env : E) (bytes : List ℕ)
          → (split_from c cancelled emit env bytes source).1 ≡ finished
          → IsComplete source)
      → (let r : E × SplitEnd = elim d [
        | pending env bytes ↦ split_from c cancelled emit env bytes source
        | returned env why ↦ (env, why)
      ] in
          r.1)
        ≡ finished
      → IsComplete source
  pass_ends source (pending env bytes) never ih h = ih env bytes h
  pass_ends source (returned env why) never ih h = absurd (ground (arith, ap ends_well h))

  split_from_ends :
      (env : E) (bytes : List ℕ) (source : Source)
      → (split_from c cancelled emit env bytes source).1 ≡ finished
      → IsComplete source
  unfolding split_from
  split_from_ends env bytes (read [] source) h = split_from_ends env bytes source h
  split_from_ends env bytes (read (b ∷ bs) source) h =
      let seen = bytes ++ b ∷ bs in
      pass_ends source (drain c cancelled emit (length seen) env seen false)
        (drain_never_ends (length seen) env seen false)
        (λ env' bytes'. split_from_ends env' bytes' source) h
  split_from_ends env bytes (last bs) h = tt
  split_from_ends env bytes (broken bs) h = absurd (cc)

  -- Split returns without an error only for a source that ends with io.EOF.
  pub split_finished-IsComplete :
      (env : E) (source : Source)
      → (split c cancelled emit env source).1 ≡ finished
      → IsComplete source
  unfolding split
  split_finished-IsComplete env source h = split_from_ends env [] source h
