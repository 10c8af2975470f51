-- ===== src/AgentQueue/Service/Race.antt =====
-- The race between an agent's report and the timeout of its command
-- (server/internal/service/agent_service.go over
-- server/internal/repository/agent_command_repository.go).
use backup_x.Base.{
  ℕ, ◌≡◌, refl, sym, ap, subst, inl, inr, Bool, true, false, List, [], ◌∷◌, none, some, arith, ltb,
  ◌==◌, if◌then◌else◌, All, Bool-cases, Option-cases, contains, ==_iff,
}
use backup_x.AgentQueue.{
  AgentCommand, Queue, update_where, first_where, find_by_id, complete_dispatched, timeout_active,
  is_completable, complete_row, is_active_row, timeout_row,
}
use backup_x.AgentQueue.Rows.{above_not_listed, IsQueue, Ascending, row_ids, find_by_id-update}
use backup_x.AgentQueue.Transitions.{
  Operation, completes, times_out, Ends, step, run, is_terminal, run-Follows, run-IsQueue,
  step-IsQueue,
}

-- A test that only rows of one id pass.
abbrev Only : ℕ → (AgentCommand → Bool) → Type 0
Only a test = (c : AgentCommand) → test c ≡ true → c.id ≡ a

update_absent :
    (test : AgentCommand → Bool) (change : AgentCommand → AgentCommand) (a : ℕ)
    (cs : List AgentCommand)
    → Only a test
    → contains (row_ids cs) a ≡ false
    → update_where test change cs ≡ (cs, 0)
unfolding update_where
update_absent test change a [] only h = refl
update_absent test change a (c ∷ cs) only h =
    ground (arith, only c, update_absent test change a cs only)

-- RowsAffected of an update of one id is 1 or 0, by the test on its row.
update_count :
    (test : AgentCommand → Bool) (change : AgentCommand → AgentCommand) (a : ℕ) (c : AgentCommand)
    (cs : List AgentCommand)
    → Only a test
    → Ascending (row_ids cs)
    → first_where (λ x. x.id == a) cs ≡ some c
    → (update_where test change cs).1 ≡ (if test c then 1 else 0)
unfolding update_where first_where
update_count test change a c [] only v h = ground arith
update_count test change a c (x ∷ cs) only v h = elim (Bool-cases (x.id == a)) [
  | inl e ↦
      let same : x ≡ c = cc (rw (e, first_where) at h) in
      let gone : contains (row_ids cs) a ≡ false =
        rw ((==_iff _ _).0 e) at (above_not_listed x.id (row_ids cs) v.0) in
      ground (arith, update_absent test change a cs only gone, ap test same)
  | inr e ↦
      let later = rw (e, first_where) at h in
      ground (arith, only x, update_count test change a c cs only v.1 later)
]

find_none :
    (a : ℕ) (cs : List AgentCommand)
    → first_where (λ x. x.id == a) cs ≡ none
    → contains (row_ids cs) a ≡ false
unfolding first_where
find_none a [] h = refl
find_none a (c ∷ cs) h = ground (arith, find_none a cs)

-- An update of one id that affects a row affects the row of that id.
module _ (test : AgentCommand → Bool) (change : AgentCommand → AgentCommand) (a : ℕ) (q : Queue)
    (only : Only a test) (v : IsQueue q) where
  update_hit :
      ltb 0 (update_where test change q.rows).1 ≡ true
      → (c : AgentCommand) × (find_by_id a q ≡ some c) × (test c ≡ true)
  unfolding find_by_id
  update_hit h = elim (Option-cases (first_where (λ x. x.id == a) q.rows)) [
    | inl e ↦
        absurd (ground (arith, update_absent test change a q.rows only (find_none a q.rows e)))
    | inr (c, e) ↦ (c, e, ground (arith, update_count test change a c q.rows only v.ascending e))
  ]

  update_miss :
      (c : AgentCommand)
      → find_by_id a q ≡ some c
      → test c ≡ false
      → ltb 0 (update_where test change q.rows).1 ≡ false
  unfolding find_by_id
  update_miss c e f = ground (arith, update_count test change a c q.rows only v.ascending e)

completable-Only : (cmd : AgentCommand) → Only cmd.id (is_completable cmd)
unfolding is_completable
completable-Only cmd c h = ground arith

active-Only : (a : ℕ) → Only a (is_active_row a)
unfolding is_active_row
active-Only a c h = ground arith

ended_not_completable :
    (cmd c : AgentCommand) → is_terminal c.status ≡ true → is_completable cmd c ≡ false
unfolding is_completable
ended_not_completable cmd c t = ground arith

ended_not_active :
    (a : ℕ) (c : AgentCommand) → is_terminal c.status ≡ true → is_active_row a c ≡ false
unfolding is_active_row
ended_not_active a c t = ground arith

-- An end that was written: the row of the command has ended.
abbrev HasEnded : ℕ → Queue → Type 0
HasEnded a q = (c : AgentCommand) × (find_by_id a q ≡ some c) × (is_terminal c.status ≡ true)

complete_ends :
    (cmd : AgentCommand) (now : ℕ) (q : Queue)
    → IsQueue q
    → is_terminal cmd.status ≡ true
    → (complete_dispatched cmd now q).1 ≡ true
    → HasEnded cmd.id (complete_dispatched cmd now q).0
unfolding complete_dispatched complete_row
complete_ends cmd now q v t h =
    let (c, found, passes) =
      update_hit (is_completable cmd) (complete_row cmd now) cmd.id q (completable-Only cmd) v h in
    (
      complete_row cmd now c,
      rw passes at (
          find_by_id-update (is_completable cmd) (complete_row cmd now) q cmd.id c (λ _. refl)
            found),
      t,
    )

timeout_ends :
    (cmd : AgentCommand) (now : ℕ) (q : Queue)
    → IsQueue q
    → (timeout_active cmd now q).1 ≡ true
    → HasEnded cmd.id (timeout_active cmd now q).0
unfolding timeout_active timeout_row
timeout_ends cmd now q v h =
    let (c, found, passes) =
      update_hit (is_active_row cmd.id) (timeout_row cmd now) cmd.id q (active-Only cmd.id) v h in
    (
      timeout_row cmd now c,
      rw passes at (
          find_by_id-update (is_active_row cmd.id) (timeout_row cmd now) q cmd.id c (λ _. refl)
            found),
      refl,
    )

module _ (a now : ℕ) (cmd : AgentCommand) (q : Queue) (c : AgentCommand) (v : IsQueue q)
    (same : cmd.id ≡ a) (found : find_by_id a q ≡ some c) (t : is_terminal c.status ≡ true) where
  found_by_cmd : find_by_id cmd.id q ≡ some c
  found_by_cmd = subst (λ b. find_by_id b q ≡ some c) (sym same) found

  too_late_to_expire : (timeout_active cmd now q).1 ≡ false
  unfolding timeout_active
  too_late_to_expire =
      update_miss (is_active_row cmd.id) (timeout_row cmd now) cmd.id q (active-Only cmd.id) v c
        found_by_cmd (ended_not_active cmd.id c t)

  too_late_to_report : (complete_dispatched cmd now q).1 ≡ false
  unfolding complete_dispatched
  too_late_to_report =
      update_miss (is_completable cmd) (complete_row cmd now) cmd.id q (completable-Only cmd) v c
        found_by_cmd (ended_not_completable cmd c t)

ended_for_good :
    (a : ℕ) (q : Queue) (ops : List (ℕ × Operation))
    → All Ends ops
    → HasEnded a q
    → HasEnded a (run q ops)
ended_for_good a q ops ends (c, found, t) =
    let (c', found', further, frozen) = run-Follows q ops a c ends found in
    (c', found', rw (frozen t) t)

-- The agent's report and the timeout of one command are not both written: whichever is written
-- first, and whatever operations run between the two, the other one comes too late.
pub report_or_timeout :
    (report expiry : AgentCommand) (now now' : ℕ) (q : Queue) (ops : List (ℕ × Operation))
    → IsQueue q
    → All Ends ops
    → is_terminal report.status ≡ true
    → report.id ≡ expiry.id
    → ((complete_dispatched report now q).1 ≡ true
        → (timeout_active expiry now' (run (complete_dispatched report now q).0 ops)).1 ≡ false)
      × ((timeout_active expiry now q).1 ≡ true
          → (complete_dispatched report now' (run (timeout_active expiry now q).0 ops)).1 ≡ false)
report_or_timeout report expiry now now' q ops v ends t same = (
  λ h.
      let q' = (complete_dispatched report now q).0 in
      let (c, found, ended) =
        ended_for_good report.id q' ops ends (complete_ends report now q v t h) in
      too_late_to_expire report.id now' expiry (run q' ops) c
        (run-IsQueue q' ops (unfold step in step-IsQueue q (now, completes report) v)) (sym same)
        found ended,
  λ h.
      let q' = (timeout_active expiry now q).0 in
      let (c, found, ended) =
        ended_for_good expiry.id q' ops ends (timeout_ends expiry now q v h) in
      too_late_to_report expiry.id now' report (run q' ops) c
        (run-IsQueue q' ops (unfold step in step-IsQueue q (now, times_out expiry) v)) same found
        ended,
)
