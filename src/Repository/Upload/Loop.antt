-- ===== src/Repository/Upload/Loop.antt =====
-- The loop of uploadMissingChunks (server/internal/backup/repository.go): what it keeps true, and
-- that no chunk of the plan is left out.
use backup_x.Base.{
  ℕ, ◌+◌, ◌≡◌, refl, sym, ◌∙◌, ap, subst, Bool, true, false, ◌&&◌, ◌||◌, inl, inr, List, [], ◌∷◌,
  Option, some, ltb, All, All-imp, is_some, arith, Bool-cases, Option-cases,
}
use backup_x.Base.Text.{Text, text_eq→eq}
use backup_x.Base.Dict.{get_key, put_key, get_key-put_key, All-put_key}
use backup_x.Repository.{Bytes, RepositoryStore, ChunkLocation, Provider, Tools}
use backup_x.Repository.Index.{has_chunks}
use backup_x.Repository.Upload.{
  Uploading, enter_locations, opened_pack, flush_pack, flush, make_room,
}
use backup_x.Repository.Packs.{with_pack}
use backup_x.Repository.Upload.Sound.{
  IsStore, HasNoPackCollision, IsInPack, IsUploading, outcome, IsKept-outcome, All-IsKept-with_pack,
}

All-enter_locations :
    (P : Text × ChunkLocation → Type 0) (locations chunks : List (Text × ChunkLocation))
    → All P locations
    → All P chunks
    → All P (enter_locations locations chunks)
unfolding enter_locations
All-enter_locations P locations [] l c = l
All-enter_locations P locations ((id, location) ∷ chunks) l c =
    All-enter_locations P (put_key id location locations) chunks
      (All-put_key P id location locations l c.0) c.1

-- Whether a chunk is in the index at hand or in the open pack.
abbrev pub covers : List (Text × ChunkLocation) → List (Text × ChunkLocation) → Text → Bool
covers locations chunks id = is_some (get_key id locations) || is_some (get_key id chunks)

get_key-enter_locations :
    (id : Text) (locations chunks : List (Text × ChunkLocation))
    → covers locations chunks id ≡ true
    → is_some (get_key id (enter_locations locations chunks)) ≡ true
unfolding enter_locations get_key
get_key-enter_locations id locations [] h = ground arith
get_key-enter_locations id locations ((j, location) ∷ chunks) h =
    get_key-enter_locations id (put_key j location locations) chunks
      (ground (arith, get_key-put_key j id location locations, text_eq→eq j id))

get_key-with_pack :
    (id key : Text) (chunks : List (Text × ChunkLocation))
    → is_some (get_key id (with_pack key chunks)) ≡ is_some (get_key id chunks)
unfolding with_pack get_key
get_key-with_pack id key [] = refl
get_key-with_pack id key ((j, location) ∷ chunks) = ground (arith, get_key-with_pack id key chunks)

covers_left :
    (locations chunks : List (Text × ChunkLocation)) (id : Text)
    → is_some (get_key id locations) ≡ true
    → covers locations chunks id ≡ true
covers_left locations chunks id h = ground arith

has_chunks-nil : (chunks : List (Text × ChunkLocation)) → has_chunks chunks ≡ false → chunks ≡ []
has_chunks-nil [] h = refl
has_chunks-nil (c ∷ cs) h = absurd (cc)

module _ (tools : Tools) (store : RepositoryStore) {E : Type 0} (provider : Provider E)
    (stored : E → Text → Option Bytes) (is_store : IsStore provider stored)
    (unique_packs : HasNoPackCollision tools) where
  abbrev pub IsGood : Uploading E → Type 0
  IsGood u = IsUploading tools store provider stored is_store unique_packs u

  abbrev pub Covers : Uploading E → Text → Type 0
  Covers u id = covers u.locations u.pack_chunks id ≡ true

  -- From one state to a later one: the state stays sound, and what was covered stays so.
  pub record Goes (u u' : Uploading E) : Type 0 where
    pub good : IsGood u'
    pub kept : (id : Text) → Covers u id → Covers u' id

  pub Goes-trans : (u v w : Uploading E) → Goes u v → Goes v w → Goes u w
  Goes-trans u v w a b = record { good = b.good; kept = λ id c. b.kept id (a.kept id c) }

  module _ (now : ℕ) where
    flush_pack-Goes :
        (pack : Bytes) (u : Uploading E)
        → u.pack_file ≡ some pack
        → IsGood u
        → (flush_pack tools store provider now pack u).1 ≡ true
        → Goes u (flush_pack tools store provider now pack u).0
          × ((flush_pack tools store provider now pack u).0.pack_chunks ≡ [])
    unfolding flush_pack opened_pack
    flush_pack-Goes pack u open_file g done =
        let r =
          outcome tools store provider stored is_store unique_packs now u.env pack u.pack_chunks in
        elim (Option-cases r.1) [
          | inl lost ↦ absurd (ground (arith, lost))
          | inr ((key, index_bytes, pack_bytes), sent) ↦
              rw (sent, flush_pack)
                (
                  record {
                    good = record {
                      indexed =
                          All-enter_locations _ u.locations (with_pack key u.pack_chunks)
                            (All-imp _ _
                              (IsKept-outcome tools store provider stored is_store unique_packs now
                                u.env pack u.pack_chunks sent)
                              u.locations g.indexed)
                            (All-IsKept-with_pack tools store provider stored is_store unique_packs
                              now u.env pack u.pack_chunks sent u.pack_chunks
                              (subst
                                (λ (f : Option Bytes).
                                  All
                                    (IsInPack tools store provider stored is_store unique_packs
                                      (opened_pack f))
                                    u.pack_chunks)
                                open_file g.packed));
                      packed = tt;
                      sizes = refl;
                      closed = λ e. refl;
                    };
                    kept = λ id c. covers_left _ [] id (
                        get_key-enter_locations id u.locations (with_pack key u.pack_chunks)
                          (ground (arith, c, get_key-with_pack id key u.pack_chunks)));
                  },
                  refl,
                )
        ]

    pub flush-Goes :
        (u : Uploading E)
        → IsGood u
        → (flush tools store provider now u).1 ≡ true
        → Goes u (flush tools store provider now u).0
          × ((flush tools store provider now u).0.pack_chunks ≡ [])
    unfolding flush
    flush-Goes u g done = elim (Option-cases u.pack_file) [
      | inl shut ↦
          let same : flush tools store provider now u ≡ (u, true) = ground (arith, shut) in
          subst After (sym same) (record { good = g; kept = λ id c. c }, g.closed shut)
      | inr (pack, open_file) ↦ elim (Bool-cases (has_chunks u.pack_chunks)) [
        | inr empty ↦
            let same : flush tools store provider now u ≡ (u, true) =
              ground (arith, open_file, empty) in
            subst After (sym same)
              (record { good = g; kept = λ id c. c }, has_chunks-nil u.pack_chunks empty)
        | inl full ↦
            let same : flush tools store provider now u
                ≡ flush_pack tools store provider now pack u =
              ground (arith, open_file, full) in
            subst After (sym same) (
              flush_pack-Goes pack u open_file g
                (ap (λ (r : Uploading E × Bool). r.1) (sym same) ∙ done))
      ]
    ]
      where
        After : Uploading E × Bool → Type 0
        After r = Goes u r.0 × (r.0.pack_chunks ≡ [])

    pub make_room-Goes :
        (size : ℕ) (u : Uploading E)
        → IsGood u
        → (make_room tools store provider now size u).1 ≡ true
        → Goes u (make_room tools store provider now size u).0
    unfolding make_room
    make_room-Goes size u g done =
        elim (Bool-cases
          (is_some u.pack_file && ltb 0 u.pack_size && ltb store.pack_size (u.pack_size + size))) [
            | inr fits ↦
                let same : make_room tools store provider now size u ≡ (u, true) =
                  ground (arith, fits) in
                subst (λ r. Goes u r.0) (sym same) (record { good = g; kept = λ id c. c })
            | inl full ↦
                let same : make_room tools store provider now size u
                    ≡ flush tools store provider now u =
                  ground (arith, full) in
                subst (λ r. Goes u r.0) (sym same)
                  (flush-Goes u g (ap (λ (r : Uploading E × Bool). r.1) (sym same) ∙ done)).0
          ]
