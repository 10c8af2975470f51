-- ===== src/RateLimiter/Bound.antt =====
-- How many attempts the limiter lets through in a window
-- (server/internal/security/rate_limiter.go).
use backup_x.Base.{
  ℕ, suc, ◌+◌, ◌-◌, ◌≤◌, ◌<◌, min, ◌≡◌, refl, ◌∙◌, sym, ap, subst, ◌⊎◌, inl, inr, true, false, not,
  List, [], ◌∷◌, none, some, arith, leb, if◌then◌else◌, All, Bool-cases,
}
use backup_x.Base.Text.{Text, text_eq, text_eq→eq, text_eq_refl}
use backup_x.RateLimiter.{RateEntry, LoginRateLimiter, lookup, remove, store, current_entry, allow}

-- Calls of Allow, each a key and a time, one after the other; and how many of those for `key` were
-- let through.
abbrev pub Call : Type 0
Call = Text × ℕ

unfoldable pub passed : Text → LoginRateLimiter → List Call → ℕ
passed key r [] = 0
passed key r ((k, now) ∷ calls) =
    let (r', ok) = allow k now r in
    let rest = passed key r' calls in
    if text_eq k key then (if ok then suc rest else rest) else rest

unfoldable pub attempts : Text → List Call → ℕ
attempts key [] = 0
attempts key ((k, now) ∷ calls) =
    let rest = attempts key calls in if text_eq k key then suc rest else rest

text_eq_swap : (k key a : Text) → text_eq k key ≡ true → text_eq a k ≡ text_eq a key
text_eq_swap k key a h = ap (text_eq a) (text_eq→eq k key h)

lookup-remove :
    (k key : Text) (items : List (Text × RateEntry))
    → text_eq k key ≡ false
    → lookup key (remove k items) ≡ lookup key items
unfolding lookup remove
lookup-remove k key [] h = refl
lookup-remove k key ((a, e) ∷ items) h = elim (Bool-cases (text_eq a k)) [
  | inl f ↦
      let other : text_eq a key ≡ false =
        subst (λ b. text_eq b key ≡ false) (sym (text_eq→eq a k f)) h in
      rw (f, other) (lookup-remove k key items h)
  | inr f ↦ ground (arith, f, lookup-remove k key items h)
]

lookup-store :
    (k key : Text) (e : RateEntry) (items : List (Text × RateEntry))
    → lookup key (store k e items) ≡ (if text_eq k key then some e else lookup key items)
unfolding lookup store
lookup-store k key e items = elim (Bool-cases (text_eq k key)) [
  | inl f ↦ rw f refl
  | inr f ↦ rw f (lookup-remove k key items f)
]

-- Allow keeps the limit and the window, and the entries of the other keys.
allow-other :
    (k key : Text) (now : ℕ) (r : LoginRateLimiter)
    → text_eq k key ≡ false
    → ((allow k now r).0.limit ≡ r.limit)
      × ((allow k now r).0.window ≡ r.window)
      × (lookup key (allow k now r).0.items ≡ lookup key r.items)
unfolding allow
allow-other k key now r h =
    elim (Bool-cases (leb r.limit (current_entry r.window now (lookup k r.items)).count)) [
      | inl e ↦ rw (e, allow) (refl, refl, rw (lookup-store k key _ r.items, h) refl)
      | inr e ↦ rw (e, allow) (refl, refl, rw (lookup-store k key _ r.items, h) refl)
    ]

allow-same :
    (k key : Text) (now : ℕ) (r : LoginRateLimiter) (e : RateEntry)
    → text_eq k key ≡ true
    → current_entry r.window now (lookup key r.items) ≡ e
    → ((allow k now r).0.limit ≡ r.limit)
      × ((allow k now r).1 ≡ not (leb r.limit e.count))
      × (lookup key (allow k now r).0.items
          ≡ some (if leb r.limit e.count then e else record e { count = e.count + 1 }))
unfolding allow
allow-same k key now r e h now_entry =
    let entry : current_entry r.window now (lookup k r.items) ≡ e =
      rw (text_eq→eq k key h) now_entry in
    elim (Bool-cases (leb r.limit e.count)) [
      | inl f ↦ rw (entry, f, allow) (refl, refl, rw (lookup-store k key _ r.items, h) refl)
      | inr f ↦ rw (entry, f, allow) (refl, refl, rw (lookup-store k key _ r.items, h) refl)
    ]

abbrev pub Until : ℕ → List Call → Type 0
Until t calls = All (λ call. call.1 ≤ t) calls

current_entry_open :
    (window now : ℕ) (e : RateEntry) → now ≤ e.window_end → current_entry window now (some e) ≡ e
unfolding current_entry
current_entry_open window now e h = ground arith

passed_open :
    (key : Text) (limit : ℕ) (r : LoginRateLimiter) (e : RateEntry) (calls : List Call)
    → r.limit ≡ limit
    → lookup key r.items ≡ some e
    → Until e.window_end calls
    → passed key r calls ≡ min (limit - e.count) (attempts key calls)
unfolding passed attempts
passed_open key limit r e [] l found v = omega arith
passed_open key limit r e ((k, now) ∷ calls) l found v = elim (Bool-cases (text_eq k key)) [
  | inr f ↦
      let (same_limit, _, same) = allow-other k key now r f in
      rw f (passed_open key limit (allow k now r).0 e calls (same_limit ∙ l) (same ∙ found) v.1)
  | inl f ↦
      let entry : current_entry r.window now (lookup key r.items) ≡ e =
        rw found (current_entry_open r.window now e v.0) in
      let (same_limit, ok, stored) = allow-same k key now r e f entry in
      elim (Bool-cases (leb r.limit e.count)) [
        | inl full ↦
            let later =
              passed_open key limit (allow k now r).0 e calls (same_limit ∙ l) (rw full at stored)
                v.1 in
            let refused : (allow k now r).1 ≡ false = rw full at ok in
            rw (f, refused) (ground (arith, later, l))
        | inr free ↦
            let later =
              passed_open key limit (allow k now r).0 (record e { count = e.count + 1 }) calls
                (same_limit ∙ l) (rw free at stored) v.1 in
            let let_through : (allow k now r).1 ≡ true = rw free at ok in
            rw (f, let_through) (ground (arith, later, l))
      ]
]

-- The key is new, or its window is over.
abbrev pub Opens : Text → ℕ → LoginRateLimiter → Type 0
Opens key now r =
    (lookup key r.items ≡ none)
    ⊎ ((e : RateEntry) × (lookup key r.items ≡ some e) × (e.window_end < now))

abbrev opened : ℕ → LoginRateLimiter → RateEntry
opened now r = record { count = 0; window_end = now + r.window }

current_entry-opened :
    (key : Text) (now : ℕ) (r : LoginRateLimiter)
    → Opens key now r
    → current_entry r.window now (lookup key r.items) ≡ opened now r
unfolding current_entry
current_entry-opened key now r (inl e) = rw (e, current_entry) refl
current_entry-opened key now r (inr (e, found, over)) =
    rw (found, current_entry) (ground (arith, over))

-- From a call that opens a window for a key to the end of that window, the limiter lets through
-- the first attempts of the key, up to the limit, and refuses the others, whatever calls for other
-- keys come between.
pub allow_bound :
    (key : Text) (now : ℕ) (r : LoginRateLimiter) (calls : List Call)
    → Opens key now r
    → Until (now + r.window) calls
    → passed key r ((key, now) ∷ calls) ≡ min r.limit (suc (attempts key calls))
unfolding passed
allow_bound key now r calls opens v =
    let e = opened now r in
    let (same_limit, ok, stored) =
      allow-same key key now r e (text_eq_refl key) (current_entry-opened key now r opens) in
    elim (Bool-cases (leb r.limit 0)) [
      | inl none_left ↦
          let later =
            passed_open key r.limit (allow key now r).0 e calls same_limit (rw none_left at stored)
              v in
          let refused : (allow key now r).1 ≡ false = rw none_left at ok in
          rw (text_eq_refl key, refused) (ground (arith, later))
      | inr free ↦
          let later =
            passed_open key r.limit (allow key now r).0 (record e { count = 1 }) calls same_limit
              (rw free at stored) v in
          let let_through : (allow key now r).1 ≡ true = rw free at ok in
          rw (text_eq_refl key, let_through) (ground (arith, later))
    ]
