-- ===== src/AgentQueue/Summaries/Tests.antt =====
-- The summaries of a small queue (server/internal/repository/agent_command_repository.go).
use backup_x.Base.{ℕ, ◌≡◌, refl, [], ◌∷◌, none, some}
use backup_x.Base.Text.{Text, codes, text_eq}
use backup_x.AgentQueue.{
  AgentCommand, Queue, Status, pending, dispatched, failed, timeout, run_task, list_pending_by_node,
}
use backup_x.AgentQueue.Summaries.{
  find_summary, summary_or, oldest_time, add_by_status, add_command, add_active, insert_by_node,
  sort_by_node, active_queue_summaries, nodes_of, timeouts_of, add_timeouts, ended_at, has_error,
  is_latest, last_errors, add_errors, apply_terminal_queue_stats, node_queue_summaries,
}
use backup_x.AgentQueue.Summaries.Counts.{Counts, node_queue_summaries-Counts}

abbrev row : ℕ → ℕ → Status → Text → ℕ → AgentCommand
row id node status message time = record {
  id = id;
  node_id = node;
  type = run_task;
  status = status;
  payload = [];
  result = [];
  error_message = message;
  dispatched_at = some time;
  completed_at = none;
  created_at = time;
  updated_at = time;
}

abbrev queue : Queue
queue = record {
  rows =
      row 1 7 dispatched [] 30
      ∷ row 2 8 pending [] 40
      ∷ row 3 7 pending [] 50
      ∷ row 4 7 failed (codes "disk full") 60
      ∷ row 5 7 timeout (codes "no report") 60
      ∷ row 6 8 timeout (codes "late") 10
      ∷ [];
  next_id = 7;
}

summaries :
    (find_summary 7 (node_queue_summaries queue)
      ≡ some (record {
        node_id = 7;
        pending = 1;
        dispatched = 1;
        running = 1;
        depth = 2;
        timeouts = 1;
        last_error = codes "no report";
        oldest_active_at = some 30;
      }))
    × (find_summary 9 (node_queue_summaries queue) ≡ none)
unfolding node_queue_summaries apply_terminal_queue_stats find_summary summary_or oldest_time
    add_by_status add_command add_active insert_by_node sort_by_node active_queue_summaries nodes_of
    timeouts_of add_timeouts ended_at has_error is_latest last_errors add_errors text_eq
summaries = (refl, refl)

node_queue_summaries-Counts_example :
    Counts (list_pending_by_node 7 queue) (summary_or (find_summary 7 (node_queue_summaries queue)))
node_queue_summaries-Counts_example = node_queue_summaries-Counts 7 queue
