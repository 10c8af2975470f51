-- ===== src/AgentQueue/Transitions.antt =====
-- The life of a command in the queue, whatever operations run
-- (server/internal/repository/agent_command_repository.go).
use mathlib.Core.Bool.{false≢true}
use backup_x.Base.{
  ℕ, ◌≤◌, ◌≡◌, refl, ◌∙◌, sym, ◌⊎◌, inl, inr, Bool, true, false, List, [], ◌∷◌, some, arith, ◌==◌,
  All, Bool-cases, Option-cases,
}
use backup_x.AgentQueue.{
  AgentCommand, Queue, Status, pending, dispatched, succeeded, failed, timeout, update_where,
  first_where, find_by_id, create, claim_pending, complete_dispatched, mark_stale_timeout,
  timeout_active, is_claimable, is_still_pending, dispatch_row, is_completable, complete_row,
  is_stale_dispatched, mark_row, is_active_row, timeout_row,
}
use backup_x.AgentQueue.Rows.{
  find_by_id-update, IsQueue, update-IsQueue, create-IsQueue, first_where-append, KeepsId,
}

abbrev pub is_terminal : Status → Bool
is_terminal succeeded = true
is_terminal failed = true
is_terminal timeout = true
is_terminal _ = false

-- How far a command has come.
abbrev pub rank : Status → ℕ
rank pending = 0
rank dispatched = 1
rank _ = 2

-- The operations that change the table, each with what its caller gives.
pub data Operation : Type 0 where
  creates : AgentCommand → Operation
  claims : ℕ → Operation
  completes : AgentCommand → Operation
  marks_stale : ℕ → Operation
  times_out : AgentCommand → Operation

-- An operation at an instant.
unfoldable pub step : Queue → ℕ × Operation → Queue
step q (now, creates cmd) = (create cmd now q).0
step q (now, claims node) = (claim_pending node now q).0
step q (now, completes cmd) = (complete_dispatched cmd now q).0
step q (now, marks_stale threshold) = (mark_stale_timeout threshold now q).0
step q (now, times_out cmd) = (timeout_active cmd now q).0

unfoldable pub run : Queue → List (ℕ × Operation) → Queue
run q [] = q
run q (op ∷ ops) = run (step q op) ops

-- An agent's report ends the command: the service completes with succeeded or failed.
abbrev pub Ends : ℕ × Operation → Type 0
Ends (now, completes cmd) = is_terminal cmd.status ≡ true
Ends _ = Unit

claim_pending-queue :
    (node now : ℕ) (q : Queue)
    → ((claim_pending node now q).0 ≡ q)
      ⊎ ((item : AgentCommand) × ((claim_pending node now q).0 ≡ record q {
        rows = (update_where (is_still_pending item.id) (dispatch_row now) q.rows).0;
      }))
unfolding claim_pending
claim_pending-queue node now q = elim (Option-cases (first_where (is_claimable node) q.rows)) [
  | inl e ↦ inl (rw (e, claim_pending))
  | inr (item, e) ↦
      elim (Bool-cases
        ((update_where (is_still_pending item.id) (dispatch_row now) q.rows).1 == 0)) [
          | inl none_left ↦ inl (rw (e, claim_pending) (rw none_left))
          | inr some_left ↦ inr (item, rw (e, claim_pending) (rw some_left))
        ]
]

-- A table in which the row of the id has come no less far, and is the same if it was at its end.
abbrev pub Follows : ℕ → AgentCommand → Queue → Type 0
Follows a c q =
    (c' : AgentCommand) × (find_by_id a q ≡ some c')
    × (rank c.status ≤ rank c'.status)
    × (is_terminal c.status ≡ true → c' ≡ c)

-- An update that leaves ended commands alone and takes none back.
abbrev Advances : (AgentCommand → Bool) → (AgentCommand → AgentCommand) → Type 0
Advances test change =
    (c : AgentCommand)
    → test c ≡ true
    → (rank c.status ≤ rank (change c).status) × (is_terminal c.status ≡ false)

update-Follows :
    (test : AgentCommand → Bool) (change : AgentCommand → AgentCommand) (q : Queue) (a : ℕ)
    (c : AgentCommand)
    → KeepsId change
    → Advances test change
    → find_by_id a q ≡ some c
    → Follows a c (record q { rows = (update_where test change q.rows).0 })
update-Follows test change q a c keeps advances found =
    let row = find_by_id-update test change q a c keeps found in
    elim (Bool-cases (test c)) [
      | inl e ↦ (
        change c,
        rw e at row,
        (advances c e).0,
        λ t. absurd (false≢true (sym (advances c e).1 ∙ t)),
      )
      | inr e ↦ (c, rw e at row, omega arith, λ _. refl)
    ]

dispatch-Advances : (id now : ℕ) → Advances (is_still_pending id) (dispatch_row now)
unfolding is_still_pending dispatch_row
dispatch-Advances id now c h = ground arith

complete-Advances :
    (cmd : AgentCommand) (now : ℕ)
    → is_terminal cmd.status ≡ true
    → Advances (is_completable cmd) (complete_row cmd now)
unfolding is_completable complete_row
complete-Advances cmd now ends c h = ground arith

mark-Advances : (threshold now : ℕ) → Advances (is_stale_dispatched threshold) (mark_row now)
unfolding is_stale_dispatched mark_row
mark-Advances threshold now c h = ground arith

timeout-Advances :
    (cmd : AgentCommand) (now : ℕ) → Advances (is_active_row cmd.id) (timeout_row cmd now)
unfolding is_active_row timeout_row
timeout-Advances cmd now c h = ground arith

create-Follows :
    (cmd : AgentCommand) (now : ℕ) (q : Queue) (a : ℕ) (c : AgentCommand)
    → find_by_id a q ≡ some c
    → Follows a c (create cmd now q).0
unfolding create find_by_id
create-Follows cmd now q a c found =
    (c, first_where-append (λ x. x.id == a) q.rows _ c found, omega arith, λ _. refl)

claim-Follows :
    (node now : ℕ) (q : Queue) (a : ℕ) (c : AgentCommand)
    → find_by_id a q ≡ some c
    → Follows a c (claim_pending node now q).0
claim-Follows node now q a c found = elim (claim_pending-queue node now q) [
  | inl same ↦ rw same (c, found, omega arith, λ _. refl)
  | inr (item, changed) ↦ rw changed (
      update-Follows (is_still_pending item.id) (dispatch_row now) q a c
        (unfold dispatch_row in λ _. refl) (dispatch-Advances item.id now) found)
]

step-Follows :
    (q : Queue) (op : ℕ × Operation) (a : ℕ) (c : AgentCommand)
    → Ends op
    → find_by_id a q ≡ some c
    → Follows a c (step q op)
unfolding step complete_dispatched mark_stale_timeout timeout_active dispatch_row complete_row
    mark_row timeout_row
step-Follows q (now, creates cmd) a c ends found = create-Follows cmd now q a c found
step-Follows q (now, claims node) a c ends found = claim-Follows node now q a c found
step-Follows q (now, completes cmd) a c ends found =
    update-Follows (is_completable cmd) (complete_row cmd now) q a c (λ _. refl)
      (complete-Advances cmd now ends) found
step-Follows q (now, marks_stale threshold) a c ends found =
    update-Follows (is_stale_dispatched threshold) (mark_row now) q a c (λ _. refl)
      (mark-Advances threshold now) found
step-Follows q (now, times_out cmd) a c ends found =
    update-Follows (is_active_row cmd.id) (timeout_row cmd now) q a c (λ _. refl)
      (timeout-Advances cmd now) found

-- Whatever operations run, the row of a command is still there and has come no less far from
-- pending by dispatched to an end; once it has succeeded, failed or timed out it never changes.
pub run-Follows :
    (q : Queue) (ops : List (ℕ × Operation)) (a : ℕ) (c : AgentCommand)
    → All Ends ops
    → find_by_id a q ≡ some c
    → Follows a c (run q ops)
unfolding run
run-Follows q [] a c ends found = (c, found, omega arith, λ _. refl)
run-Follows q (op ∷ ops) a c ends found =
    let (c1, found1, rank1, same1) = step-Follows q op a c ends.0 found in
    let (c2, found2, rank2, same2) = run-Follows (step q op) ops a c1 ends.1 found1 in
    (c2, found2, omega arith, λ t. same2 (rw (same1 t) t) ∙ same1 t)

pub step-IsQueue : (q : Queue) (op : ℕ × Operation) → IsQueue q → IsQueue (step q op)
unfolding step complete_dispatched mark_stale_timeout timeout_active dispatch_row complete_row
    mark_row timeout_row
step-IsQueue q (now, creates cmd) v = create-IsQueue cmd now q v
step-IsQueue q (now, claims node) v = elim (claim_pending-queue node now q) [
  | inl same ↦ rw same v
  | inr (item, changed) ↦ rw changed (update-IsQueue _ (dispatch_row now) q (λ _. refl) v)
]
step-IsQueue q (now, completes cmd) v =
    update-IsQueue (is_completable cmd) (complete_row cmd now) q (λ _. refl) v
step-IsQueue q (now, marks_stale threshold) v =
    update-IsQueue (is_stale_dispatched threshold) (mark_row now) q (λ _. refl) v
step-IsQueue q (now, times_out cmd) v =
    update-IsQueue (is_active_row cmd.id) (timeout_row cmd now) q (λ _. refl) v

-- Whatever operations run, the ids of the rows ascend and were given out.
pub run-IsQueue : (q : Queue) (ops : List (ℕ × Operation)) → IsQueue q → IsQueue (run q ops)
unfolding run
run-IsQueue q [] v = v
run-IsQueue q (op ∷ ops) v = run-IsQueue (step q op) ops (step-IsQueue q op v)
