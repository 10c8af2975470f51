-- ===== src/AgentQueue/Tests.antt =====
-- Runs of the command queue on concrete tables (server/internal/repository/agent_command_repository.go
-- and server/internal/service/agent_service.go).
use backup_x.Base.{ℕ, ◌≤◌, ◌≡◌, ◌≢◌, refl, true, false, List, [], ◌∷◌, Option, none, some, arith}
use backup_x.Base.Text.{codes}
use backup_x.AgentQueue.{
  AgentCommand, Queue, run_task, list_dir, Status, pending, dispatched, succeeded, timeout,
  update_where, first_where, create, find_by_id, is_claimable, is_still_pending, dispatch_row,
  claim_pending, is_completable, complete_row, complete_dispatched, is_stale_dispatched,
  is_stale_active, mark_row, mark_stale_timeout, is_active_row, timeout_row, timeout_active,
  list_stale_dispatched, list_stale_active, is_active_of, list_pending_by_node, timeout_message,
}
use backup_x.AgentQueue.Rows.{IsQueue}
use backup_x.AgentQueue.Transitions.{
  Operation, creates, claims, completes, times_out, step, run, Follows, run-Follows,
}
use backup_x.AgentQueue.Claim.{claimed, claim_pending_first, claim_pending_once}
use backup_x.AgentQueue.Service.{
  accepted, failure_message, reported, report_command, submit_command_result, enqueue_command,
  timed_out, expire_command, expire_commands, process_stale_commands,
}
use backup_x.AgentQueue.Service.Race.{report_or_timeout}
use backup_x.AgentQueue.Service.Monitor.{process_stale_commands-row}

abbrev row : ℕ → ℕ → Status → Option ℕ → AgentCommand
row id node status dispatched_at = record {
  id = id;
  node_id = node;
  type = run_task;
  status = status;
  payload = codes "{}";
  result = [];
  error_message = [];
  dispatched_at = dispatched_at;
  completed_at = none;
  created_at = 10;
  updated_at = 10;
}

-- Two commands for node 7.
abbrev two_rows : Queue
two_rows = record { rows = row 1 7 pending none ∷ row 2 7 pending none ∷ []; next_id = 3 }

two_rows-IsQueue : IsQueue two_rows
two_rows-IsQueue = record { ascending = ground arith; given_out = ground arith }

abbrev one_claimed : Queue
one_claimed = record {
  rows = record (row 1 7 dispatched (some 100)) { updated_at = 100 } ∷ row 2 7 pending none ∷ [];
  next_id = 3;
}

one_claimed-IsQueue : IsQueue one_claimed
one_claimed-IsQueue = record { ascending = ground arith; given_out = ground arith }

first_claim : claim_pending 7 100 two_rows ≡ (one_claimed, some (row 1 7 dispatched (some 100)))
unfolding claim_pending first_where is_claimable update_where is_still_pending dispatch_row
first_claim = refl

abbrev timed_out_row : AgentCommand
timed_out_row = record (row 1 7 timeout (some 100)) {
  error_message = timeout_message;
  completed_at = some 150;
  updated_at = 150;
}

abbrev written_timeout : AgentCommand
written_timeout = record (row 1 7 timeout (some 100)) {
  error_message = timeout_message;
  completed_at = some 150;
}

second_claim : claim_pending 7 200 (run one_claimed ((150, times_out written_timeout) ∷ [])) ≡ (
  record {
    rows = timed_out_row ∷ record (row 2 7 dispatched (some 200)) { updated_at = 200 } ∷ [];
    next_id = 3;
  },
  some (row 2 7 dispatched (some 200)),
)
unfolding claim_pending first_where is_claimable update_where is_still_pending dispatch_row run step
    timeout_active is_active_row timeout_row
second_claim = refl

claim_pending_once_example : ◌≢◌ {A = ℕ} 2 1
claim_pending_once_example =
    claim_pending_once 7 100 7 200 two_rows one_claimed
      (record {
        rows = timed_out_row ∷ record (row 2 7 dispatched (some 200)) { updated_at = 200 } ∷ [];
        next_id = 3;
      })
      (row 1 7 dispatched (some 100)) (row 2 7 dispatched (some 200))
      ((150, times_out written_timeout) ∷ []) two_rows-IsQueue (tt, tt) first_claim second_claim

claim_pending_first_example :
    (item : AgentCommand) × (find_by_id item.id two_rows ≡ some item)
    × (item.node_id ≡ 7)
    × (item.status ≡ pending)
    × ((b : ℕ) (x : AgentCommand)
        → find_by_id b two_rows ≡ some x
        → is_claimable 7 x ≡ true
        → item.id ≤ b)
    × (row 1 7 dispatched (some 100) ≡ claimed 100 item)
    × (find_by_id item.id one_claimed ≡ some (dispatch_row 100 item))
    × ((b : ℕ) (x : AgentCommand)
        → b ≢ item.id
        → find_by_id b two_rows ≡ some x
        → find_by_id b one_claimed ≡ some x)
claim_pending_first_example =
    claim_pending_first 7 100 two_rows one_claimed (row 1 7 dispatched (some 100)) two_rows-IsQueue
      first_claim

find_first :
    find_by_id 1 one_claimed ≡ some (record (row 1 7 dispatched (some 100)) { updated_at = 100 })
unfolding find_by_id first_where
find_first = refl

abbrev some_ops : List (ℕ × Operation)
some_ops =
    (120, completes (row 1 7 succeeded (some 100)))
    ∷ (130, creates (row 0 8 pending none))
    ∷ (140, claims 8)
    ∷ []

run-Follows_example :
    Follows 1
      (record (row 1 7 dispatched (some 100)) { updated_at = 100 })
      (run one_claimed some_ops)
run-Follows_example =
    run-Follows one_claimed some_ops 1 (record (row 1 7 dispatched (some 100)) { updated_at = 100 })
      (refl, (tt, (tt, tt))) find_first

report_or_timeout_example :
    ((complete_dispatched (row 1 7 succeeded (some 100)) 120 one_claimed).1 ≡ true
      → (timeout_active written_timeout 150
          (run (complete_dispatched (row 1 7 succeeded (some 100)) 120 one_claimed).0 [])).1
        ≡ false)
    × ((timeout_active written_timeout 120 one_claimed).1 ≡ true
        → (complete_dispatched
            (row 1 7 succeeded (some 100))
            150
            (run (timeout_active written_timeout 120 one_claimed).0 [])).1
          ≡ false)
report_or_timeout_example =
    report_or_timeout (row 1 7 succeeded (some 100)) written_timeout 120 150 one_claimed []
      one_claimed-IsQueue tt refl refl

-- Node 7 dispatched command 1 at 100, and the monitor runs at 5000 with the threshold 3000.
process_stale_commands-row_example :
    find_by_id 1 (process_stale_commands (λ c. some false) 3000 5000 one_claimed).0
    ≡ some (record (row 1 7 timeout (some 100)) {
      error_message = timeout_message;
      completed_at = some 5000;
      updated_at = 5000;
    })
unfolding is_stale_active is_stale_dispatched
process_stale_commands-row_example =
    process_stale_commands-row (λ c. some false) 3000 5000 1 one_claimed
      (record (row 1 7 dispatched (some 100)) { updated_at = 100 }) one_claimed-IsQueue find_first

-- A late report is accepted and changes nothing; a failed one fails the linked record.
reports :
    (submit_command_result 7 120 1
      (record { success = true; error_message = []; result = codes "ok" })
      one_claimed).1
    ≡ accepted
unfolding submit_command_result report_command reported complete_dispatched update_where
    is_completable complete_row find_by_id first_where failure_message
reports = refl

lists :
    (list_stale_dispatched 3000 one_claimed
      ≡ record (row 1 7 dispatched (some 100)) { updated_at = 100 } ∷ [])
    × (list_pending_by_node 8 one_claimed ≡ [])
    × ((mark_stale_timeout 3000 5000 one_claimed).1 ≡ 1)
    × ((enqueue_command 8 list_dir [] 60 one_claimed).1 ≡ some 3)
unfolding list_stale_dispatched is_stale_dispatched list_pending_by_node is_active_of
    mark_stale_timeout mark_row update_where enqueue_command create
lists = (refl, refl, refl, refl)

monitor_reports :
    (process_stale_commands (λ c. some false) 3000 5000 two_rows).1
    ≡ timed_out (row 1 7 pending none) 5000 ∷ timed_out (row 2 7 pending none) 5000 ∷ []
unfolding process_stale_commands list_stale_active is_stale_active is_stale_dispatched
    expire_commands expire_command timeout_active update_where is_active_row timeout_row timed_out
monitor_reports = refl
