-- ===== src/Repository/World.antt =====
-- Concrete packages for the repository of server/internal/backup/repository.go: a hash without
-- collisions, 32 bytes long for the chunks of a small file, and compression and ciphers that leave a
-- text as it is.
use backup_x.Base.{
  ℕ, zero, suc, ◌+◌, ◌≡◌, refl, sym, ◌∙◌, ap, ◌⊎◌, true, false, inl, inr, [], ◌∷◌, ◌++◌, none, some,
  take, arith, Bool-cases, Option-cases,
}
use mathlib.Core.Path.{ap₂}
use mathlib.Core.List.{append_cancel_left}
use backup_x.Base.Text.{Text, codes, text_eq, text_eq→eq, cut_prefix, cut_prefix-append}
use backup_x.Repository.{Bytes, RepositoryStore, RepositorySnapshot, IndexSegment, Tools}
use backup_x.Repository.Hex.{hex_encode, hex_encode-injective}
use backup_x.Repository.Keys.{pack_key-injective}
use backup_x.Repository.Codec.{none_compression, gzip_compression, zstd_compression, chunk_id}
use backup_x.Repository.Codec.RoundTrip.{IsFaithful}
use backup_x.Repository.Index.{is_compression}
use backup_x.Repository.Plan.Contents.{HasNoCollision}
use backup_x.Repository.Upload.Sound.{HasNoPackCollision}

-- Bytes, each one more, up to a length that is filled with zeros.
unfoldable pub pad : ℕ → Bytes → Bytes
pad zero bytes = bytes
pad (suc n) [] = 0 ∷ pad n []
pad (suc n) (b ∷ bs) = (b + 1) ∷ pad n bs

pad-injective : (n : ℕ) (xs ys : Bytes) → pad n xs ≡ pad n ys → xs ≡ ys
unfolding pad
pad-injective zero xs ys h = h
pad-injective (suc n) [] [] h = refl
pad-injective (suc n) [] (y ∷ ys) h = absurd (ground (arith, h))
pad-injective (suc n) (x ∷ xs) [] h = absurd (ground (arith, h))
pad-injective (suc n) (x ∷ xs) (y ∷ ys) h =
    let rest : pad n xs ≡ pad n ys = ground (arith, h) in
    ap₂ ◌∷◌ (ground (arith, h)) (pad-injective n xs ys rest)

abbrev pub domain_head : Bytes
domain_head = codes "backupx-repository-v1/"

-- A hash: what follows the first part of a domain, filled up, or the bytes behind a mark.
unfoldable pub digest : Bytes → Bytes
digest bytes = elim (cut_prefix domain_head bytes) [ some t ↦ 1 ∷ pad 31 t | none ↦ 0 ∷ bytes ]

digest-injective : (a b : Bytes) → digest a ≡ digest b → a ≡ b
unfolding digest
digest-injective a b h = elim (Option-cases (cut_prefix domain_head a)) [
  | inl na ↦ elim (Option-cases (cut_prefix domain_head b)) [
    | inl nb ↦ ground (arith, na, nb, h)
    | inr (t, e) ↦ absurd (ground (arith, na, e, h))
  ]
  | inr (s, d) ↦ elim (Option-cases (cut_prefix domain_head b)) [
    | inl nb ↦ absurd (ground (arith, d, nb, h))
    | inr (t, e) ↦
        let padded : pad 31 s ≡ pad 31 t = ground (arith, d, e, h) in
        cut_prefix-append domain_head a d
        ∙ ap (◌++◌ domain_head) (pad-injective 31 s t padded)
        ∙ sym (cut_prefix-append domain_head b e)
  ]
]

-- Packages whose decoders of JSON know one segment and one snapshot.
abbrev pub tools_with : IndexSegment → RepositorySnapshot → Tools
tools_with segment snapshot = record {
  sha256 = digest;
  hmac_sha256 = λ key bytes. digest bytes;
  gzip = λ raw. some raw;
  gunzip = λ out n. some (take n out);
  zstd_encode = λ raw. some raw;
  zstd_decode = λ out n. some (take n out);
  nonce_size = 12;
  seal = λ key nonce plain additional. plain;
  unseal = λ key nonce sealed additional. some sealed;
  marshal_segment = λ s. codes "index";
  unmarshal_segment = λ bytes. some segment;
  marshal_snapshot = λ s. codes "snapshot";
  unmarshal_snapshot = λ bytes. some snapshot;
  marshal_envelope = λ e. codes "envelope";
  unmarshal_envelope = λ bytes.
      some (record {
        version = snapshot.version;
        encrypted = false;
        payload = bytes;
        ciphertext = [];
      });
  base64_encode = λ bytes. bytes;
  base64_decode = λ text. some text;
}

module _ (segment : IndexSegment) (snapshot : RepositorySnapshot) where
  pub tools-IsFaithful : IsFaithful (tools_with segment snapshot)
  tools-IsFaithful = record {
    gunzip-gzip = λ raw out n h. ground (arith, h);
    zstd_decode-zstd_encode = λ raw out n small h. ground (arith, h);
    unseal-seal = λ key nonce plain additional h. refl;
  }

  pub tools-HasNoPackCollision : HasNoPackCollision (tools_with segment snapshot)
  tools-HasNoPackCollision pack pack' h = digest-injective pack pack' (
      hex_encode-injective (digest pack) (digest pack')
        (pack_key-injective (hex_encode (digest pack)) (hex_encode (digest pack')) h))

  -- What follows the first part of a domain.
  abbrev domain_tail : Text → Text → Bytes → Bytes
  domain_tail compression kind raw = (compression ++ (kind ++ (0 ∷ []))) ++ raw

  compression_cases :
      (compression : Text)
      → is_compression compression ≡ true
      → (compression ≡ none_compression)
        ⊎ (compression ≡ gzip_compression)
        ⊎ (compression ≡ zstd_compression)
  unfolding is_compression
  compression_cases compression h = elim (Bool-cases (text_eq compression none_compression)) [
    | inl a ↦ inl (text_eq→eq compression none_compression a)
    | inr a ↦ elim (Bool-cases (text_eq compression gzip_compression)) [
      | inl b ↦ inr (inl (text_eq→eq compression gzip_compression b))
      | inr b ↦ inr (inr (text_eq→eq compression zstd_compression (ground (arith, a, b))))
    ]
  ]

  abbrev first : Bytes → ℕ
  first [] = 0
  first (x ∷ xs) = x

  first-domain_tail :
      (c kind : Text) (raw : Bytes)
      → is_compression c ≡ true
      → first (domain_tail c kind raw) ≡ first c
  first-domain_tail c kind raw known = elim (compression_cases c known) [
    | inl n ↦ rw n refl
    | inr (inl g) ↦ rw g refl
    | inr (inr z) ↦ rw z refl
  ]

  same_first :
      (c c' : Text)
      → is_compression c ≡ true
      → is_compression c' ≡ true
      → first c ≡ first c'
      → c ≡ c'
  same_first c c' known known' h =
      ground (arith, compression_cases c known, compression_cases c' known')

  domain_tail-injective :
      (c c' kind : Text) (raw raw' : Bytes)
      → is_compression c ≡ true
      → is_compression c' ≡ true
      → domain_tail c kind raw ≡ domain_tail c' kind raw'
      → raw ≡ raw'
  domain_tail-injective c c' kind raw raw' known known' h =
      let same : c ≡ c' = same_first c c' known known' (
        sym (first-domain_tail c kind raw known)
        ∙ ap first h
        ∙ first-domain_tail c' kind raw' known') in
      append_cancel_left (c ++ (kind ++ (0 ∷ []))) raw raw'
        (h ∙ ap (λ (x : Text). domain_tail x kind raw') (sym same))

  plain_ids :
      (c c' kind prefix : Text) (raw raw' : Bytes)
      → is_compression c ≡ true
      → is_compression c' ≡ true
      → prefix ++ hex_encode (digest (codes "backupx-repository-v1/" ++ domain_tail c kind raw))
        ≡ prefix ++ hex_encode (digest (codes "backupx-repository-v1/" ++ domain_tail c' kind raw'))
      → raw ≡ raw'
  plain_ids c c' kind prefix raw raw' known known' h =
      domain_tail-injective c c' kind raw raw' known known' (
        append_cancel_left (codes "backupx-repository-v1/") (domain_tail c kind raw)
          (domain_tail c' kind raw')
          (digest-injective _ _ (hex_encode-injective _ _ (append_cancel_left prefix _ _ h))))

  pub tools-HasNoCollision :
      (store : RepositoryStore) → HasNoCollision (tools_with segment snapshot) store
  unfolding chunk_id
  tools-HasNoCollision store raw raw' c c' true true known known' h =
      plain_ids c c' (codes "/encrypted") (codes "e-") raw raw' known known' h
  tools-HasNoCollision store raw raw' c c' false false known known' h =
      plain_ids c c' (codes "/plain") (codes "p-") raw raw' known known' h
  tools-HasNoCollision store raw raw' c c' true false known known' h =
      absurd (omega (arith, ap first h))
  tools-HasNoCollision store raw raw' c c' false true known known' h =
      absurd (omega (arith, ap first h))
