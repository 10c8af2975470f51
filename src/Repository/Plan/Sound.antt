-- ===== src/Repository/Plan/Sound.antt =====
-- What a plan is at every moment of its walk (BuildPlan in server/internal/backup/repository.go):
-- every chunk that the entries name stands in the spool, once, under the id of its bytes.
use backup_x.Base.{
  ℕ, ◌+◌, ◌≤◌, ◌≡◌, refl, sym, ◌∙◌, ap, subst, Bool, true, false, inl, inr, List, [], ◌∷◌, ◌++◌,
  some, length, length-append, All, is_some, arith, Bool-cases,
}
use backup_x.Base.Text.{Text, text_eq, text_eq_refl, text_eq→eq}
use backup_x.Base.Dict.{
  get_key, put_key, has_key, IsDistinct, get_key-put_key, has_key-append, IsDistinct-snoc,
}
use backup_x.Repository.{
  Bytes, RepositoryStore, PlanChunk, RepositoryEntry, Tools, repository_chunk_max,
}
use backup_x.Repository.Slices.{slice, slice-append, slice-append_end}
use backup_x.Repository.Codec.{chunk_id}
use backup_x.Repository.Plan.{Planning, no_planning, add_chunk}

module _ (tools : Tools) (store : RepositoryStore) (compression : Text) (encrypted : Bool) where
  -- The part of the spool at a planned chunk has the chunk's id and size.
  pub record IsSpooled (spool : Bytes) (id : Text) (c : PlanChunk) : Type 0 where
    pub within : c.offset + c.size ≤ length spool
    pub hashed : chunk_id tools store (slice c.offset c.size spool) compression encrypted ≡ id
    pub small : c.size ≤ repository_chunk_max

  abbrev pub IsPlanned : List (Text × PlanChunk) → List Text → Type 0
  IsPlanned chunks ids = (id : Text) → has_key ids id ≡ true → is_some (get_key id chunks) ≡ true

  pub record IsSpool (spool : Bytes) (chunks : List (Text × PlanChunk)) (order : List Text)
      : Type 0 where
    pub spooled : (id : Text) (c : PlanChunk) → get_key id chunks ≡ some c → IsSpooled spool id c
    pub ordered : (id : Text) → has_key order id ≡ is_some (get_key id chunks)
    pub distinct : IsDistinct order

  pub record IsSound (p : Planning) : Type 0 where
    pub offset : p.spool_offset ≡ length p.spool
    pub unique : p.unique_size ≡ length p.spool
    pub spool_ok : IsSpool p.spool p.chunks p.chunk_order
    pub named : IsPlanned p.chunks p.entry_chunks
    pub entries_named : All (λ (e : RepositoryEntry). IsPlanned p.chunks e.chunks) p.entries

  IsSpooled-append :
      (spool more : Bytes) (id : Text) (c : PlanChunk)
      → IsSpooled spool id c
      → IsSpooled (spool ++ more) id c
  IsSpooled-append spool more id c s = record {
    within = omega (arith, length-append spool more);
    hashed =
        ap (λ (x : Bytes). chunk_id tools store x compression encrypted)
          (slice-append c.offset c.size spool more s.within)
        ∙ s.hashed;
    small = s.small;
  }

  -- A plan with no chunk of the id of `raw` takes it.
  module _ (spool : Bytes) (offset : ℕ) (ends : offset ≡ length spool)
      (chunks : List (Text × PlanChunk)) (order : List Text) (raw : Bytes)
      (small : length raw ≤ repository_chunk_max)
      (fresh : is_some (get_key (chunk_id tools store raw compression encrypted) chunks)
        ≡ false) where
    abbrev new_id : Text
    new_id = chunk_id tools store raw compression encrypted

    abbrev new_chunk : PlanChunk
    new_chunk = record { offset = offset; size = length raw }

    new_chunk-IsSpooled : IsSpooled (spool ++ raw) new_id new_chunk
    new_chunk-IsSpooled = record {
      within = omega (arith, length-append spool raw);
      hashed =
          ap (λ (x : Bytes). chunk_id tools store x compression encrypted)
            (rw ends (slice-append_end spool raw));
      small = small;
    }

    abbrev new_chunks : List (Text × PlanChunk)
    new_chunks = put_key new_id new_chunk chunks

    IsPlanned-put_key : (ids : List Text) → IsPlanned chunks ids → IsPlanned new_chunks ids
    IsPlanned-put_key ids h id m =
        ground (arith, get_key-put_key new_id id new_chunk chunks, h id m)

    IsSpool-put_key :
        IsSpool spool chunks order → IsSpool (spool ++ raw) new_chunks (order ++ new_id ∷ [])
    unfolding has_key
    IsSpool-put_key s = record {
      spooled = λ id c e. elim (Bool-cases (text_eq new_id id)) [
        | inl same ↦
            let e' : new_chunk ≡ c = ground (arith, get_key-put_key new_id id new_chunk chunks) in
            subst (λ x. IsSpooled (spool ++ raw) id x) e'
              (subst (λ x. IsSpooled (spool ++ raw) x new_chunk) (text_eq→eq new_id id same)
                new_chunk-IsSpooled)
        | inr other ↦
            IsSpooled-append spool raw id c
              (s.spooled id c (ground (arith, get_key-put_key new_id id new_chunk chunks)))
      ];
      ordered = λ id. ground (
        arith,
        has_key-append order (new_id ∷ []) id,
        get_key-put_key new_id id new_chunk chunks,
        s.ordered id,
      );
      distinct = IsDistinct-snoc order new_id s.distinct (ground (arith, s.ordered new_id));
    }

    All-IsPlanned-put_key :
        (es : List RepositoryEntry)
        → All (λ (e : RepositoryEntry). IsPlanned chunks e.chunks) es
        → All (λ (e : RepositoryEntry). IsPlanned new_chunks e.chunks) es
    All-IsPlanned-put_key [] h = tt
    All-IsPlanned-put_key (e ∷ es) h =
        (IsPlanned-put_key e.chunks h.0, All-IsPlanned-put_key es h.1)

  IsPlanned-snoc :
      (chunks : List (Text × PlanChunk)) (ids : List Text) (id : Text)
      → IsPlanned chunks ids
      → is_some (get_key id chunks) ≡ true
      → IsPlanned chunks (ids ++ id ∷ [])
  unfolding has_key
  IsPlanned-snoc chunks ids id h found j m =
      ground (arith, has_key-append ids (id ∷ []) j, h j, text_eq→eq id j)

  abbrev pub added : Planning → Bytes → Planning
  added p raw = (add_chunk tools store compression encrypted p raw).0

  abbrev pub id_of : Bytes → Text
  id_of raw = chunk_id tools store raw compression encrypted

  pub add_chunk_known :
      (p : Planning) (raw : Bytes)
      → is_some (get_key (id_of raw) p.chunks) ≡ true
      → added p raw ≡ record p { entry_chunks = p.entry_chunks ++ id_of raw ∷ [] }
  unfolding add_chunk
  add_chunk_known p raw h = rw (h, added, add_chunk)

  pub add_chunk_new :
      (p : Planning) (raw : Bytes)
      → is_some (get_key (id_of raw) p.chunks) ≡ false
      → added p raw ≡ record p {
        entry_chunks = p.entry_chunks ++ id_of raw ∷ [];
        spool = p.spool ++ raw;
        chunks =
            put_key (id_of raw) (record { offset = p.spool_offset; size = length raw }) p.chunks;
        chunk_order = p.chunk_order ++ id_of raw ∷ [];
        unique_size = p.unique_size + length raw;
        spool_offset = p.spool_offset + length raw;
      }
  unfolding add_chunk
  add_chunk_new p raw h = rw (h, added, add_chunk)

  pub add_chunk-IsSound :
      (p : Planning) (raw : Bytes)
      → IsSound p
      → length raw ≤ repository_chunk_max
      → IsSound (added p raw)
  add_chunk-IsSound p raw s small = elim (Bool-cases (is_some (get_key (id_of raw) p.chunks))) [
    | inl known ↦ subst IsSound (sym (add_chunk_known p raw known)) (record {
      offset = s.offset;
      unique = s.unique;
      spool_ok = s.spool_ok;
      named = IsPlanned-snoc p.chunks p.entry_chunks (id_of raw) s.named known;
      entries_named = s.entries_named;
    })
    | inr fresh ↦ subst IsSound (sym (add_chunk_new p raw fresh)) (record {
      offset = omega (arith, s.offset, length-append p.spool raw);
      unique = omega (arith, s.unique, length-append p.spool raw);
      spool_ok =
          IsSpool-put_key p.spool p.spool_offset s.offset p.chunks p.chunk_order raw small fresh
            s.spool_ok;
      named =
          IsPlanned-snoc _ p.entry_chunks (id_of raw)
            (IsPlanned-put_key p.spool p.spool_offset s.offset p.chunks p.chunk_order raw small
              fresh p.entry_chunks s.named)
            (ground (
              arith,
              get_key-put_key (id_of raw) (id_of raw)
                  (record { offset = p.spool_offset; size = length raw }) p.chunks,
              text_eq_refl (id_of raw),
            ));
      entries_named =
          All-IsPlanned-put_key p.spool p.spool_offset s.offset p.chunks p.chunk_order raw small
            fresh p.entries s.entries_named;
    })
  ]

  pub no_planning-IsSound : IsSound no_planning
  unfolding has_key get_key
  no_planning-IsSound = record {
    offset = refl;
    unique = refl;
    spool_ok = record { spooled = λ id c e. absurd (cc); ordered = λ id. refl; distinct = tt };
    named = λ id h. absurd (cc);
    entries_named = tt;
  }
