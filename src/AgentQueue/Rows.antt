-- ===== src/AgentQueue/Rows.antt =====
-- The rows of the command table under UPDATE … WHERE, which never changes an id
-- (server/internal/repository/agent_command_repository.go).
use backup_x.Base.{
  ℕ, ◌+◌, ◌≤◌, ◌<◌, ◌≡◌, refl, ◌∙◌, sym, ap, subst, inl, inr, Bool, true, false, List, [], ◌∷◌,
  ◌++◌, Option, none, some, arith, ◌==◌, if◌then◌else◌, contains, All, Bool-cases, ==_iff,
}
use backup_x.AgentQueue.{AgentCommand, Queue, update_where, first_where, find_by_id, create}

abbrev pub row_ids : List AgentCommand → List ℕ
row_ids [] = []
row_ids (c ∷ cs) = c.id ∷ row_ids cs

-- Every id is larger than those before it.
abbrev pub Ascending : List ℕ → Type 0
Ascending [] = Unit
Ascending (a ∷ rest) = All (λ b. a < b) rest × Ascending rest

-- The ids ascend, and all of them were given out.
pub record IsQueue (q : Queue) : Type 0 where
  pub ascending : Ascending (row_ids q.rows)
  pub given_out : All (λ a. a < q.next_id) (row_ids q.rows)

abbrev pub KeepsId : (AgentCommand → AgentCommand) → Type 0
KeepsId change = (c : AgentCommand) → (change c).id ≡ c.id

module _ (test : AgentCommand → Bool) (change : AgentCommand → AgentCommand)
    (keeps : KeepsId change) where
  pub row_ids-update_where :
      (cs : List AgentCommand) → row_ids (update_where test change cs).0 ≡ row_ids cs
  unfolding update_where
  row_ids-update_where [] = refl
  row_ids-update_where (c ∷ cs) = ground (arith, keeps c, row_ids-update_where cs)

  -- The row of an id after an update.
  abbrev pub updated : Option AgentCommand → Option AgentCommand
  updated none = none
  updated (some c) = some (if test c then change c else c)

  pub first_where-update_where :
      (a : ℕ) (cs : List AgentCommand)
      → first_where (λ c. c.id == a) (update_where test change cs).0
        ≡ updated (first_where (λ c. c.id == a) cs)
  unfolding first_where update_where
  first_where-update_where a [] = refl
  first_where-update_where a (c ∷ cs) = ground (arith, keeps c, first_where-update_where a cs)

pub first_where-append :
    (test : AgentCommand → Bool) (cs ds : List AgentCommand) (c : AgentCommand)
    → first_where test cs ≡ some c
    → first_where test (cs ++ ds) ≡ some c
unfolding first_where
first_where-append test [] ds c h = ground arith
first_where-append test (x ∷ cs) ds c h = ground (arith, first_where-append test cs ds c)

pub first_where_passes :
    (test : AgentCommand → Bool) (cs : List AgentCommand) (c : AgentCommand)
    → first_where test cs ≡ some c
    → test c ≡ true
unfolding first_where
first_where_passes test [] c h = ground arith
first_where_passes test (x ∷ cs) c h = elim (Bool-cases (test x)) [
  | inl e ↦ let same : x ≡ c = cc (rw (e, first_where) at h) in subst (λ y. test y ≡ true) same e
  | inr e ↦ first_where_passes test cs c (rw (e, first_where) at h)
]

pub above_not_listed : (a : ℕ) (rest : List ℕ) → All (λ b. a < b) rest → contains rest a ≡ false
above_not_listed a [] v = refl
above_not_listed a (b ∷ rest) v = ground (arith, above_not_listed a rest v.1)

listed_above : (a b : ℕ) (rest : List ℕ) → All (λ c. a < c) rest → contains rest b ≡ true → a < b
listed_above a b [] v h = ground arith
listed_above a b (c ∷ rest) v h = ground (arith, listed_above a b rest v.1)

find_listed :
    (b : ℕ) (cs : List AgentCommand) (x : AgentCommand)
    → first_where (λ y. y.id == b) cs ≡ some x
    → contains (row_ids cs) b ≡ true
unfolding first_where
find_listed b [] x h = ground arith
find_listed b (y ∷ cs) x h = ground (arith, find_listed b cs x)

-- A row that some test finds first is the row of its id.
find_found :
    (test : AgentCommand → Bool) (cs : List AgentCommand) (c : AgentCommand)
    → Ascending (row_ids cs)
    → first_where test cs ≡ some c
    → (first_where (λ x. x.id == c.id) cs ≡ some c) × (contains (row_ids cs) c.id ≡ true)
unfolding first_where
find_found test [] c d h = ground arith
find_found test (x ∷ cs) c d h = elim (Bool-cases (test x)) [
  | inl e ↦
      let same : x ≡ c = cc (rw (e, first_where) at h) in
      let same_id : (x.id == c.id) ≡ true = ground arith in
      (rw same_id (ap some same), rw same_id refl)
  | inr e ↦
      let (found, listed) = find_found test cs c d.1 (rw (e, first_where) at h) in
      let apart = above_not_listed x.id (row_ids cs) d.0 in
      let other : (x.id == c.id) ≡ false = ground arith in (rw other found, rw other listed)
]

pub find_by_id_found :
    (test : AgentCommand → Bool) (q : Queue) (c : AgentCommand)
    → IsQueue q
    → first_where test q.rows ≡ some c
    → find_by_id c.id q ≡ some c
unfolding find_by_id
find_by_id_found test q c v h = (find_found test q.rows c v.ascending h).0

-- The row of an id after an update.
pub find_by_id-update :
    (test : AgentCommand → Bool) (change : AgentCommand → AgentCommand) (q : Queue) (a : ℕ)
    (c : AgentCommand)
    → KeepsId change
    → find_by_id a q ≡ some c
    → find_by_id a (record q { rows = (update_where test change q.rows).0 })
      ≡ some (if test c then change c else c)
unfolding find_by_id
find_by_id-update test change q a c keeps found =
    first_where-update_where test change keeps a q.rows ∙ ap (updated test change keeps) found

pub find_by_id_has_id : (a : ℕ) (q : Queue) (c : AgentCommand) → find_by_id a q ≡ some c → c.id ≡ a
unfolding find_by_id
find_by_id_has_id a q c h = (==_iff c.id a).0 (first_where_passes (λ x. x.id == a) q.rows c h)

-- Of the rows that pass a test the first has the least id.
pub first_where_least :
    (test : AgentCommand → Bool) (cs : List AgentCommand) (c x : AgentCommand) (b : ℕ)
    → Ascending (row_ids cs)
    → first_where test cs ≡ some c
    → first_where (λ y. y.id == b) cs ≡ some x
    → test x ≡ true
    → c.id ≤ b
unfolding first_where
first_where_least test [] c x b d h k t = ground arith
first_where_least test (y ∷ cs) c x b d h k t = elim (Bool-cases (y.id == b)) [
  | inl e ↦
      let same : y ≡ x = cc (rw (e, first_where) at k) in
      let passes : test y ≡ true = subst (λ z. test z ≡ true) (sym same) t in
      let chosen : y ≡ c = cc (rw (passes, first_where) at h) in ground arith
  | inr e ↦
      let later = rw (e, first_where) at k in
      elim (Bool-cases (test y)) [
        | inl f ↦
            let chosen : y ≡ c = cc (rw (f, first_where) at h) in
            let above = listed_above y.id b (row_ids cs) d.0 (find_listed b cs x later) in
            omega (arith, ap (λ (z : AgentCommand). z.id) chosen)
        | inr f ↦ first_where_least test cs c x b d.1 (rw (f, first_where) at h) later t
      ]
]

-- An update keeps the ids, and so the invariant.
pub update-IsQueue :
    (test : AgentCommand → Bool) (change : AgentCommand → AgentCommand) (q : Queue)
    → KeepsId change
    → IsQueue q
    → IsQueue (record q { rows = (update_where test change q.rows).0 })
update-IsQueue test change q keeps v =
    let same = sym (row_ids-update_where test change keeps q.rows) in
    record {
      ascending = subst Ascending same v.ascending;
      given_out = subst (All (λ a. a < q.next_id)) same v.given_out;
    }

row_ids-append :
    (cs : List AgentCommand) (c : AgentCommand) → row_ids (cs ++ c ∷ []) ≡ row_ids cs ++ c.id ∷ []
row_ids-append [] c = refl
row_ids-append (x ∷ cs) c = ap (◌∷◌ x.id) (row_ids-append cs c)

Ascending-snoc :
    (rest : List ℕ) (n : ℕ)
    → Ascending rest
    → All (λ a. a < n) rest
    → Ascending (rest ++ n ∷ []) × All (λ a. a < n + 1) (rest ++ n ∷ [])
Ascending-snoc [] n d v = ((tt, tt), (omega arith, tt))
Ascending-snoc (a ∷ rest) n d v =
    let (ascending, below) = Ascending-snoc rest n d.1 v.1 in
    ((All-snoc rest n d.0 v.0, ascending), (omega arith, below))
  where
    All-snoc :
        (rest : List ℕ) (n : ℕ) → All (λ b. a < b) rest → a < n → All (λ b. a < b) (rest ++ n ∷ [])
    All-snoc [] n u h = (h, tt)
    All-snoc (b ∷ rest) n u h = (u.0, All-snoc rest n u.1 h)

pub create-IsQueue :
    (cmd : AgentCommand) (now : ℕ) (q : Queue) → IsQueue q → IsQueue (create cmd now q).0
unfolding create
create-IsQueue cmd now q v =
    let (ascending, below) = Ascending-snoc (row_ids q.rows) q.next_id v.ascending v.given_out in
    record { ascending = rw row_ids-append ascending; given_out = rw row_ids-append below }
