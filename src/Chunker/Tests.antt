-- ===== src/Chunker/Tests.antt =====
-- Runs of a chunker with small sizes (server/internal/backup/repository_chunker.go).
use mathlib.Core.List.{flatten}
use backup_x.Base.{Bool, ◌++◌, ℕ, ◌≤◌, ◌<◌, ◌≡◌, refl, ◌⊎◌, true, false, List, [], ◌∷◌, arith}
use backup_x.Chunker.{
  Chunker, find_cut_point, scan, is_boundary, roll, no_cut, cut_or, Source, read, last, split,
  split_from, drain, finish, finished, splitmix,
}
use backup_x.Chunker.CutPoint.{find_cut_point_bounds}
use backup_x.Chunker.Streaming.{
  content, never, keep, SizesInBounds, split_reads_irrelevant, split_chunks,
}

abbrev tiny : Chunker
tiny = record {
  min_size = 2;
  avg_size = 4;
  max_size = 6;
  small_mask = 7;
  large_mask = 1;
  gear = 3 ∷ 5 ∷ 8 ∷ 13 ∷ 21 ∷ 34 ∷ 55 ∷ 89 ∷ [];
}

-- The bytes in three reads, one of them empty.
abbrev three_reads : Source
three_reads = read (1 ∷ 2 ∷ 3 ∷ []) (read [] (read (4 ∷ 5 ∷ 6 ∷ 7 ∷ 0 ∷ []) (last (1 ∷ 1 ∷ []))))

abbrev at_once : Source
at_once = last (1 ∷ 2 ∷ 3 ∷ 4 ∷ 5 ∷ 6 ∷ 7 ∷ 0 ∷ 1 ∷ 1 ∷ [])

split_reads_irrelevant_example :
    split tiny never keep [] three_reads ≡ split tiny never keep [] at_once
unfolding content
split_reads_irrelevant_example =
    split_reads_irrelevant tiny never keep [] three_reads (omega arith) tt

split_chunks_example :
    (chunks : List (List ℕ)) × (split tiny never keep [] three_reads ≡ (chunks, finished))
    × (flatten chunks ≡ 1 ∷ 2 ∷ 3 ∷ 4 ∷ 5 ∷ 6 ∷ 7 ∷ 0 ∷ 1 ∷ 1 ∷ [])
    × SizesInBounds tiny chunks
unfolding content
split_chunks_example = split_chunks tiny three_reads (omega arith) tt

find_cut_point_bounds_example :
    let cut = find_cut_point tiny (1 ∷ 2 ∷ 3 ∷ 4 ∷ []) true in
    (cut ≤ 4)
    × (cut ≤ 6)
    × (((true ≡ true) × (cut ≡ 4)) ⊎ (2 < cut) ⊎ (cut ≡ 6) ⊎ ((true ≡ false) × (cut ≡ 0)))
    × ((true ≡ true) → (0 < 4) → (0 < 6) → 0 < cut)
    × ((true ≡ false)
        → (0 < cut)
        → (more : List ℕ) (eof' : Bool)
        → find_cut_point tiny ((1 ∷ 2 ∷ 3 ∷ 4 ∷ []) ++ more) eof' ≡ cut)
find_cut_point_bounds_example = find_cut_point_bounds tiny (1 ∷ 2 ∷ 3 ∷ 4 ∷ []) true (omega arith)

chunks_of_three_reads :
    split tiny never keep [] three_reads
    ≡ ((1 ∷ 2 ∷ 3 ∷ 4 ∷ 5 ∷ []) ∷ (6 ∷ 7 ∷ 0 ∷ 1 ∷ 1 ∷ []) ∷ [], finished)
unfolding split split_from drain finish find_cut_point scan is_boundary roll no_cut cut_or never
    keep
chunks_of_three_reads = refl

-- The first word of SplitMix64 from the seed 0.
first_word : splitmix 0x9e3779b97f4a7c15 ≡ 0xe220a8397b1dcdaf
unfolding splitmix
first_word = refl
