-- ===== src/Chunker/Streaming.antt =====
-- What Split promises of the chunks (server/internal/backup/repository_chunker.go): they depend on
-- the bytes of the source alone, they put the source together again, and they keep their bounds.
use mathlib.Core.List.{append_assoc, append-nil, flatten}
use backup_x.Base.{
  ℕ, zero, suc, ◌≤◌, ◌<◌, ◌≡◌, refl, sym, ◌∙◌, ap, ◌⊎◌, Bool, true, false, List, [], ◌∷◌, ◌++◌,
  arith, length, length-take, take-append-drop, take, drop, length-append, length-drop, ◌==◌,
}
use backup_x.Chunker.{
  Chunker, find_cut_point, Drained, pending, returned, drain, finish, finished, SplitEnd, Source,
  read, last, broken, split, split_from,
}
use backup_x.Chunker.CutPoint.{find_cut_point_bounds}
use backup_x.Chunker.Drain.{drain-append, drain_nil, resume}

-- The bytes of a source that ends with io.EOF.
unfoldable pub content : Source → List ℕ
content (read bs source) = bs ++ content source
content (last bs) = bs
content (broken bs) = bs

-- The source ends with io.EOF.
abbrev pub IsComplete : Source → Type 0
IsComplete (read bs source) = IsComplete source
IsComplete (last bs) = Unit
IsComplete (broken bs) = ⊥

module _ {E : Type 0} (c : Chunker) (cancelled : E → Bool) (emit : E → List ℕ → E × Bool) where
  -- The end of a Split that has `bytes` pending and reads the rest at once.
  abbrev at_once : E → List ℕ → E × SplitEnd
  at_once env bytes = finish c cancelled emit (drain c cancelled emit (length bytes) env bytes true)

  -- One round of the outer loop, after its pass.
  after_pass :
      (source : Source) (d : Drained E)
      → ((env : E) (bytes : List ℕ)
          → split_from c cancelled emit env bytes source ≡ at_once env (bytes ++ content source))
      → elim d [
        | pending env bytes ↦ split_from c cancelled emit env bytes source
        | returned env why ↦ (env, why)
      ]
        ≡ finish c cancelled emit (resume c cancelled emit (content source) true d)
  unfolding finish
  after_pass source (pending env bytes) ih = ih env bytes
  after_pass source (returned env why) ih = refl

  split_from-content :
      (env : E) (bytes : List ℕ) (source : Source)
      → c.min_size ≤ c.max_size
      → IsComplete source
      → split_from c cancelled emit env bytes source ≡ at_once env (bytes ++ content source)
  unfolding split_from content
  split_from-content env bytes (last bs) m h = refl
  split_from-content env bytes (broken bs) m h = elim h [ ]
  split_from-content env bytes (read [] source) m h = split_from-content env bytes source m h
  split_from-content env bytes (read (b ∷ bs) source) m h =
      let seen = bytes ++ b ∷ bs in
      after_pass source (drain c cancelled emit (length seen) env seen false)
        (λ env' bytes'. split_from-content env' bytes' source m h)
      ∙ ap (finish c cancelled emit) (
          sym (
            drain-append c cancelled emit (length (seen ++ content source)) (length seen) env seen
              (content source) true m (omega arith) (omega arith)))
      ∙ ap (at_once env) (append_assoc bytes (b ∷ bs) (content source))

  -- The chunks, the environment that the callback leaves and the outcome depend on the bytes of
  -- a complete source only, and not on how the reader cuts them into reads.
  pub split_reads_irrelevant :
      (env : E) (source : Source)
      → c.min_size ≤ c.max_size
      → IsComplete source
      → split c cancelled emit env source ≡ split c cancelled emit env (last (content source))
  unfolding split content
  split_reads_irrelevant env source m h =
      split_from-content env [] source m h
      ∙ sym (split_from-content env [] (last (content source)) m tt)

-- A context that is never cancelled, and a callback that keeps every chunk.
unfoldable pub never : List (List ℕ) → Bool
never chunks = false

unfoldable pub keep : List (List ℕ) → List ℕ → List (List ℕ) × Bool
keep chunks chunk = (chunks ++ chunk ∷ [], true)

-- No chunk is empty or longer than the maximum, and all but the last are longer than the minimum.
abbrev pub SizesInBounds : Chunker → List (List ℕ) → Type 0
SizesInBounds c [] = Unit
SizesInBounds c (x ∷ []) = (0 < length x) × (length x ≤ c.max_size)
SizesInBounds c (x ∷ y ∷ rest) =
    (c.min_size < length x) × (length x ≤ c.max_size) × SizesInBounds c (y ∷ rest)

-- The lists that a pass over the last bytes may add.
abbrev Chunks : Chunker → List ℕ → List (List ℕ) → Type 0
Chunks c bs chunks = (flatten chunks ≡ bs) × SizesInBounds c chunks

first_chunk_pos :
    (c : Chunker) (x : List ℕ) (rest : List (List ℕ)) → SizesInBounds c (x ∷ rest) → 0 < length x
first_chunk_pos c x [] ok = ok.0
first_chunk_pos c x (y ∷ rest) ok = omega arith

Chunks-cons :
    (c : Chunker) (cut : ℕ) (bs : List ℕ) (chunks : List (List ℕ))
    → 0 < cut
    → cut ≤ c.max_size
    → cut ≤ length bs
    → (cut ≡ length bs) ⊎ (c.min_size < cut)
    → Chunks c (drop cut bs) chunks
    → Chunks c bs (take cut bs ∷ chunks)
unfolding flatten
Chunks-cons c cut bs [] pos max le full (flat, ok) = (
  ap (◌++◌ (take cut bs)) flat ∙ take-append-drop cut bs,
  (omega (arith, length-take cut bs), omega (arith, length-take cut bs)),
)
Chunks-cons c cut bs (x ∷ chunks) pos max le full (flat, ok) = (
  ap (◌++◌ (take cut bs)) flat ∙ take-append-drop cut bs,
  (
    omega (
      arith,
      length-take cut bs,
      length-drop cut bs,
      ap length flat,
      length-append x (flatten chunks),
      first_chunk_pos c x chunks ok,
    ),
    omega (arith, length-take cut bs),
    ok,
  ),
)

drain-Chunks :
    (c : Chunker) (fuel : ℕ) (chunks : List (List ℕ)) (bs : List ℕ)
    → c.min_size < c.max_size
    → length bs ≤ fuel
    → (more : List (List ℕ)) × (drain c never keep fuel chunks bs true
        ≡ pending (chunks ++ more) [])
      × Chunks c bs more
unfolding drain never keep flatten
drain-Chunks c fuel chunks [] m h = (
  [],
  drain_nil c never keep fuel chunks true ∙ ap (λ cs. pending cs []) (sym (append-nil chunks)),
  (refl, tt),
)
drain-Chunks c zero chunks (b ∷ bs) m h = elim h [ ]
drain-Chunks c (suc fuel) chunks (b ∷ bs) m h =
    let cut = find_cut_point c (b ∷ bs) true in
    let bounds = find_cut_point_bounds c (b ∷ bs) true (omega arith) in
    let pos : 0 < cut = bounds.3 refl (omega arith) (omega arith) in
    let (more, run, whole) =
      drain-Chunks c fuel (chunks ++ take cut (b ∷ bs) ∷ []) (drop cut (b ∷ bs)) m
        (omega (arith, length-drop cut (b ∷ bs))) in
    let uncut : (cut == 0) ≡ false = ground arith in
    (
      take cut (b ∷ bs) ∷ more,
      rw uncut (run ∙ ap (λ cs. pending cs []) (append_assoc chunks (take cut (b ∷ bs) ∷ []) more)),
      Chunks-cons c cut (b ∷ bs) more pos bounds.1 bounds.0 (ground arith) whole,
    )

-- When nothing fails, Split returns without an error, and its chunks put together are the bytes of
-- the source; none is empty or longer than the maximum, and all but the last are longer than the
-- minimum.
pub split_chunks :
    (c : Chunker) (source : Source)
    → c.min_size < c.max_size
    → IsComplete source
    → (chunks : List (List ℕ)) × (split c never keep [] source ≡ (chunks, finished))
      × (flatten chunks ≡ content source)
      × SizesInBounds c chunks
unfolding split finish
split_chunks c source m h =
    let (chunks, run, whole) =
      drain-Chunks c (length (content source)) [] (content source) m (omega arith) in
    (
      chunks,
      split_from-content c never keep [] [] source (omega arith) h ∙ ap (finish c never keep) run,
      whole.0,
      whole.1,
    )
