-- ===== src/Repository/Plan/Contents.antt =====
-- The bytes that the chunks of an entry stand for in the spool of a plan (BuildPlan in
-- server/internal/backup/repository.go).
use mathlib.Core.Path.{ap₂}
use mathlib.Core.List.{append_assoc, append-nil}
use backup_x.Base.{
  ℕ, ◌≤◌, ◌≡◌, refl, sym, ◌∙◌, ap, ◌+◌, Bool, true, false, inl, inr, List, [], ◌∷◌, ◌++◌, none,
  some, length, is_some, arith, Bool-cases, Option-cases,
}
use backup_x.Base.Text.{Text, text_eq_refl, text_eq→eq}
use backup_x.Base.Dict.{get_key, put_key, has_key, get_key-put_key, has_key-append}
use backup_x.Chunker.{Chunker, Source, finished, split}
use backup_x.Chunker.Streaming.{content}
use backup_x.Chunker.Invariant.{split_keeps, split_finished-IsComplete}
use backup_x.Repository.{Bytes, RepositoryStore, PlanChunk, Tools, repository_chunk_max}
use backup_x.Repository.Slices.{slice, slice-append}
use backup_x.Repository.Codec.{chunk_id}
use backup_x.Repository.Index.{is_compression}
use backup_x.Repository.Plan.{Planning, add_chunk}
use backup_x.Repository.Plan.Sound.{
  IsPlanned, IsSpool, IsSound, added, id_of, add_chunk_known, add_chunk_new, add_chunk-IsSound,
}

-- The bytes of a chunk in the spool.
unfoldable pub chunk_bytes : Bytes → List (Text × PlanChunk) → Text → Bytes
chunk_bytes spool chunks id = elim (get_key id chunks) [
  | none ↦ []
  | some c ↦ slice c.offset c.size spool
]

-- The bytes of the chunks of an entry, one after the other.
unfoldable pub file_bytes : Bytes → List (Text × PlanChunk) → List Text → Bytes
file_bytes spool chunks [] = []
file_bytes spool chunks (id ∷ ids) = chunk_bytes spool chunks id ++ file_bytes spool chunks ids

pub file_bytes-snoc :
    (spool : Bytes) (chunks : List (Text × PlanChunk)) (ids : List Text) (id : Text)
    → file_bytes spool chunks (ids ++ id ∷ [])
      ≡ file_bytes spool chunks ids ++ chunk_bytes spool chunks id
unfolding file_bytes
file_bytes-snoc spool chunks [] id = append-nil _
file_bytes-snoc spool chunks (i ∷ ids) id =
    ap (◌++◌ (chunk_bytes spool chunks i)) (file_bytes-snoc spool chunks ids id)
    ∙ sym (append_assoc (chunk_bytes spool chunks i) _ _)

-- No two chunks of a repository have one id, since SHA-256 and HMAC-SHA-256 have no collision.
abbrev pub HasNoCollision : Tools → RepositoryStore → Type 0
HasNoCollision tools store =
    (raw raw' : Bytes) (compression compression' : Text) (encrypted encrypted' : Bool)
    → is_compression compression ≡ true
    → is_compression compression' ≡ true
    → chunk_id tools store raw compression encrypted
      ≡ chunk_id tools store raw' compression' encrypted'
    → raw ≡ raw'

has_key_last : (ids : List Text) (id : Text) → has_key (ids ++ id ∷ []) id ≡ true
unfolding has_key
has_key_last ids id = ground (arith, has_key-append ids (id ∷ []) id, text_eq_refl id)

-- A new chunk at the end of the spool leaves the bytes of another one alone.
chunk_bytes-append :
    (spool more : Bytes) (offset : ℕ) (chunks : List (Text × PlanChunk)) (new id : Text)
    (c : PlanChunk)
    → is_some (get_key new chunks) ≡ false
    → get_key id chunks ≡ some c
    → c.offset + c.size ≤ length spool
    → chunk_bytes
        (spool ++ more)
        (put_key new (record { offset = offset; size = length more }) chunks)
        id
      ≡ chunk_bytes spool chunks id
unfolding chunk_bytes
chunk_bytes-append spool more offset chunks new id c fresh e within = ground (
  arith,
  get_key-put_key new id (record { offset = offset; size = length more }) chunks,
  text_eq→eq new id,
  slice-append c.offset c.size spool more within,
)

module _ (tools : Tools) (store : RepositoryStore) (compression : Text) (encrypted : Bool) where
  -- The bytes of a planned chunk are those of its id.
  pub chunk_bytes-hashed :
      (spool : Bytes) (chunks : List (Text × PlanChunk)) (order : List Text) (id : Text)
      → IsSpool tools store compression encrypted spool chunks order
      → is_some (get_key id chunks) ≡ true
      → chunk_id tools store (chunk_bytes spool chunks id) compression encrypted ≡ id
  unfolding chunk_bytes
  chunk_bytes-hashed spool chunks order id s found = elim (Option-cases (get_key id chunks)) [
    | inl missing ↦ absurd (ground (arith, missing))
    | inr (c, e) ↦ rw (e, chunk_bytes) (s.spooled id c e).hashed
  ]

  -- A chunk that is added leaves the bytes of the planned ones alone.
  chunk_bytes-added :
      (p : Planning) (raw : Bytes) (id : Text)
      → IsSound tools store compression encrypted p
      → is_some (get_key id p.chunks) ≡ true
      → chunk_bytes
          (added tools store compression encrypted p raw).spool
          (added tools store compression encrypted p raw).chunks
          id
        ≡ chunk_bytes p.spool p.chunks id
  chunk_bytes-added p raw id s found =
      elim (Bool-cases (is_some (get_key (id_of tools store compression encrypted raw) p.chunks))) [
        | inl known ↦
            ap (λ (q : Planning). chunk_bytes q.spool q.chunks id)
              (add_chunk_known tools store compression encrypted p raw known)
        | inr fresh ↦ elim (Option-cases (get_key id p.chunks)) [
          | inl missing ↦ absurd (ground (arith, missing))
          | inr (c, e) ↦
              ap (λ (q : Planning). chunk_bytes q.spool q.chunks id)
                (add_chunk_new tools store compression encrypted p raw fresh)
              ∙ chunk_bytes-append p.spool raw p.spool_offset p.chunks
                  (id_of tools store compression encrypted raw) id c fresh e
                  (s.spool_ok.spooled id c e).within
        ]
      ]

  file_bytes-added :
      (p : Planning) (raw : Bytes) (ids : List Text)
      → IsSound tools store compression encrypted p
      → IsPlanned tools store compression encrypted p.chunks ids
      → file_bytes
          (added tools store compression encrypted p raw).spool
          (added tools store compression encrypted p raw).chunks
          ids
        ≡ file_bytes p.spool p.chunks ids
  unfolding file_bytes has_key
  file_bytes-added p raw [] s planned = refl
  file_bytes-added p raw (id ∷ ids) s planned = cc (
    chunk_bytes-added p raw id s (planned id (ground (arith, text_eq_refl id))),
    file_bytes-added p raw ids s (λ j m. planned j (ground arith)),
  )

  -- The chunks of the entry at hand stand for the bytes that Split has passed on.
  pub record IsReading (start p : Planning) (done : Bytes) : Type 0 where
    pub sound : IsSound tools store compression encrypted p
    pub read_so_far : file_bytes p.spool p.chunks p.entry_chunks ≡ done
    pub same_entries : p.entries ≡ start.entries
    pub keeps :
        (ids : List Text)
        → IsPlanned tools store compression encrypted start.chunks ids
        → IsPlanned tools store compression encrypted p.chunks ids
          × (file_bytes p.spool p.chunks ids ≡ file_bytes start.spool start.chunks ids)

  IsPlanned-added :
      (p : Planning) (raw : Bytes) (ids : List Text)
      → IsPlanned tools store compression encrypted p.chunks ids
      → IsPlanned tools store compression encrypted
          (added tools store compression encrypted p raw).chunks
          ids
  unfolding add_chunk
  IsPlanned-added p raw ids h id m = ground (
    arith,
    h id m,
    get_key-put_key (id_of tools store compression encrypted raw) id
        (record { offset = p.spool_offset; size = length raw }) p.chunks,
  )

  added-entry_chunks :
      (p : Planning) (raw : Bytes)
      → (added tools store compression encrypted p raw).entry_chunks
        ≡ p.entry_chunks ++ id_of tools store compression encrypted raw ∷ []
  unfolding add_chunk
  added-entry_chunks p raw = ground arith

  added-entries :
      (p : Planning) (raw : Bytes)
      → (added tools store compression encrypted p raw).entries ≡ p.entries
  unfolding add_chunk
  added-entries p raw = ground arith

  module _ (unique_ids : HasNoCollision tools store)
      (known : is_compression compression ≡ true) where
    pub add_chunk-IsReading :
        (start p : Planning) (done raw : Bytes)
        → IsReading start p done
        → length raw ≤ repository_chunk_max
        → IsReading start (added tools store compression encrypted p raw) (done ++ raw)
    add_chunk-IsReading start p done raw r small =
        let q = added tools store compression encrypted p raw in
        let id = id_of tools store compression encrypted raw in
        let sound = add_chunk-IsSound tools store compression encrypted p raw r.sound small in
        let chunks = added-entry_chunks p raw in
        let found : is_some (get_key id q.chunks) ≡ true =
          sound.named id (rw chunks (has_key_last p.entry_chunks id)) in
        record {
          sound = sound;
          read_so_far =
              ap (file_bytes q.spool q.chunks) chunks
              ∙ file_bytes-snoc q.spool q.chunks p.entry_chunks id
              ∙ ap₂ ◌++◌
                  (file_bytes-added p raw p.entry_chunks r.sound r.sound.named ∙ r.read_so_far)
                  (unique_ids (chunk_bytes q.spool q.chunks id) raw compression compression
                    encrypted encrypted known known
                    (chunk_bytes-hashed q.spool q.chunks q.chunk_order id sound.spool_ok found));
          same_entries = added-entries p raw ∙ r.same_entries;
          keeps = λ ids planned. (
            IsPlanned-added p raw ids (r.keeps ids planned).0,
            file_bytes-added p raw ids r.sound (r.keeps ids planned).0 ∙ (r.keeps ids planned).1,
          );
        }

    -- Split of a whole file: the chunks of the entry stand for its bytes.
    pub split-IsReading :
        (chunker : Chunker) (cancelled : Planning → Bool) (start : Planning) (source : Source)
        → chunker.min_size ≤ chunker.max_size
        → chunker.max_size ≤ repository_chunk_max
        → IsSound tools store compression encrypted start
        → start.entry_chunks ≡ []
        → let r =
            split chunker cancelled (add_chunk tools store compression encrypted) start source in
          r.1 ≡ finished → IsReading start r.0 (content source)
    unfolding file_bytes
    split-IsReading chunker cancelled start source m max s none_yet ends =
        split_keeps chunker cancelled (add_chunk tools store compression encrypted)
          (IsReading start)
          (λ p done raw r small. add_chunk-IsReading start p done raw r (omega arith)) start source
          m (split_finished-IsComplete chunker cancelled _ start source ends)
          (record {
            sound = s;
            read_so_far = ap (file_bytes start.spool start.chunks) none_yet;
            same_entries = refl;
            keeps = λ ids planned. (planned, refl);
          })
          ends
