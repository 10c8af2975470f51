-- ===== src/RateLimiter/Tests.antt =====
-- Runs of the limiter (server/internal/security/rate_limiter.go).
use backup_x.Base.{◌≡◌, refl, inl, true, List, [], ◌∷◌, none, arith}
use backup_x.Base.Text.{Text, codes, text_eq}
use backup_x.RateLimiter.{
  new_login_rate_limiter, lookup, remove, store, current_entry, allow, reset,
}
use backup_x.RateLimiter.Bound.{Call, passed, attempts, allow_bound}

abbrev alice : Text
alice = codes "alice"

abbrev bob : Text
bob = codes "bob"

-- Three more attempts of one user and one of another, in a window of 60 with the limit 2.
abbrev calls : List Call
calls = (alice, 110) ∷ (bob, 115) ∷ (alice, 120) ∷ (alice, 160) ∷ []

no_entry : lookup alice (new_login_rate_limiter 2 60).items ≡ none
unfolding lookup
no_entry = refl

allow_bound_example : passed alice (new_login_rate_limiter 2 60) ((alice, 100) ∷ calls) ≡ 2
unfolding attempts text_eq
allow_bound_example =
    allow_bound alice 100 (new_login_rate_limiter 2 60) calls (inl no_entry)
      (omega arith, (omega arith, (omega arith, (omega arith, tt))))

-- A reset opens a new window.
resets : (allow alice 105 (reset alice (allow alice 100 (new_login_rate_limiter 1 60)).0)).1 ≡ true
unfolding allow reset lookup remove store current_entry text_eq
resets = refl
