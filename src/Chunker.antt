-- ===== src/Chunker.antt =====
-- The content-defined chunker of server/internal/backup/repository_chunker.go: the Gear table, the
-- cut-point search and the streaming loop of Split.
--
-- Bytes and 64-bit words are native numbers; `<<` and `+` on uint64 keep their wrap-around. The
-- reader is a `Source`, the sequence of results that its Read calls return. The context and the
-- emit callback act on an environment `E`: `cancelled` is what ctx.Err() sees and `emit` returns
-- the environment after the callback and whether it succeeded.
pub mod CutPoint
pub mod Drain
pub mod Streaming
pub mod Invariant
mod Tests
use Prim.Native.Nat.{bit_and, bit_xor}
use backup_x.Base.{
  ℕ, zero, suc, ◌+◌, ◌-◌, ◌*◌, ◌/◌, ◌%◌, ◌^◌, min, Bool, true, false, List, [], ◌∷◌, ◌++◌, Option,
  none, some, ltb, leb, ◌==◌, if◌then◌else◌, length, take, drop, get_or,
}

pub record Chunker : Type 0 where
  pub min_size : ℕ
  pub avg_size : ℕ
  pub max_size : ℕ
  pub small_mask : ℕ
  pub large_mask : ℕ
  pub gear : List ℕ

abbrev pub chunk_min : ℕ
chunk_min = 512 * 2 ^ 10

abbrev pub chunk_avg : ℕ
chunk_avg = 2 ^ 20

abbrev pub chunk_max : ℕ
chunk_max = 4 * 2 ^ 20

-- One output of SplitMix64 from its seed after the increment.
splitmix : ℕ → ℕ
splitmix seed =
    let v1 = bit_xor seed (seed / 2 ^ 30) * 0xbf58476d1ce4e5b9 % 2 ^ 64 in
    let v2 = bit_xor v1 (v1 / 2 ^ 27) * 0x94d049bb133111eb % 2 ^ 64 in bit_xor v2 (v2 / 2 ^ 31)

-- The table loop: `n` entries from `seed` on.
gear_table : ℕ → ℕ → List ℕ
unfolding splitmix
gear_table zero seed = []
gear_table (suc n) seed =
    let next = (seed + 0x9e3779b97f4a7c15) % 2 ^ 64 in splitmix next ∷ gear_table n next

unfoldable pub new_content_defined_chunker : Chunker
unfolding gear_table
new_content_defined_chunker = record {
  min_size = chunk_min;
  avg_size = chunk_avg;
  max_size = chunk_max;
  small_mask = 2 ^ 21 - 1;
  large_mask = 2 ^ 19 - 1;
  gear = gear_table 256 0x6a09e667f3bcc909;
}

-- `hash = (hash << 1) + gear[b]` on uint64.
unfoldable pub roll : Chunker → ℕ → ℕ → ℕ
roll c hash b = (hash * 2 + get_or c.gear b 0) % 2 ^ 64

-- `hash & mask == 0`, with the mask that the index selects.
unfoldable pub is_boundary : Chunker → ℕ → ℕ → Bool
is_boundary c index hash =
    bit_and hash (if ltb index c.avg_size then c.small_mask else c.large_mask) == 0

-- The loop of findCutPoint over the bytes from `index` on, up to `limit`.
unfoldable pub scan : Chunker → ℕ → ℕ → ℕ → List ℕ → Option ℕ
scan c limit index hash [] = none
scan c limit index hash (b ∷ rest) =
    let hash' = roll c hash b in
    let more = scan c limit (index + 1) hash' rest in
    if ltb index limit then (if is_boundary c index hash' then some (index + 1) else more) else none

-- What follows the loop when no byte cuts.
unfoldable pub no_cut : Chunker → ℕ → Bool → ℕ
no_cut c len eof = if leb c.max_size len then c.max_size else if eof then len else 0

unfoldable pub cut_or : Option ℕ → ℕ → ℕ
cut_or none d = d
cut_or (some n) d = n

-- findCutPoint: 0 when more data is needed.
unfoldable pub find_cut_point : Chunker → List ℕ → Bool → ℕ
unfolding cut_or no_cut
find_cut_point c bytes eof =
    if ltb (length bytes) c.min_size
    then (if eof then length bytes else 0)
    else cut_or (scan c (min (length bytes) c.max_size) c.min_size 0 (drop c.min_size bytes))
        (no_cut c (length bytes) eof)

-- The results of the reader's calls: `read` returns bytes and no error, `last` returns bytes with
-- io.EOF, `broken` returns bytes with another error.
pub data Source : Type 0 where
  read : List ℕ → Source → Source
  last : List ℕ → Source
  broken : List ℕ → Source

-- Why Split returned.
pub data SplitEnd : Type 0 where
  finished context_cancelled emit_failed read_failed bytes_left : SplitEnd

-- How one pass of the inner loop ended: with bytes still pending, or with a return.
pub data Drained (E : Type 0) : Type 0 where
  pending : E → List ℕ → Drained E
  returned : E → SplitEnd → Drained E

module _ {E : Type 0} (c : Chunker) (cancelled : E → Bool) (emit : E → List ℕ → E × Bool) where
  -- The inner loop of Split. The number of bytes is fuel enough, since a cut removes at least one.
  unfoldable pub drain : ℕ → E → List ℕ → Bool → Drained E
  drain zero env bytes eof = pending env bytes
  drain (suc fuel) env [] eof = pending env []
  drain (suc fuel) env (b ∷ bs) eof =
      let cut = find_cut_point c (b ∷ bs) eof in
      let (env', emitted) = emit env (take cut (b ∷ bs)) in
      let rest = drain fuel env' (drop cut (b ∷ bs)) eof in
      if cancelled env
      then returned env context_cancelled
      else if cut == 0
      then pending env (b ∷ bs)
      else if emitted
      then rest
      else returned env' emit_failed

  -- The return after the last pass.
  unfoldable pub finish : Drained E → E × SplitEnd
  finish (pending env []) = (env, finished)
  finish (pending env (b ∷ bs)) = (env, bytes_left)
  finish (returned env why) = (env, why)

  -- The outer loop of Split, from bytes that are already pending. A read of no bytes goes on to
  -- the next one.
  unfoldable pub split_from : E → List ℕ → Source → E × SplitEnd
  split_from env bytes (read [] source) = split_from env bytes source
  split_from env bytes (read (b ∷ bs) source) =
      elim (drain (length (bytes ++ b ∷ bs)) env (bytes ++ b ∷ bs) false) [
        | pending env' bytes' ↦ split_from env' bytes' source
        | returned env' why ↦ (env', why)
      ]
  split_from env bytes (last bs) = finish (drain (length (bytes ++ bs)) env (bytes ++ bs) true)
  split_from env bytes (broken bs) = (env, read_failed)

  unfoldable pub split : E → Source → E × SplitEnd
  unfolding split_from
  split env source = split_from env [] source
