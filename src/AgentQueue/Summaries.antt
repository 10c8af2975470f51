-- ===== src/AgentQueue/Summaries.antt =====
-- The summaries of the queue by node (NodeQueueSummaries and its parts in
-- server/internal/repository/agent_command_repository.go).
--
-- The map of the summaries is an association list. A GROUP BY lists each node once.
pub mod Active
pub mod Counts
mod Tests
use mathlib.Core.List.{reverse}
use backup_x.Base.{
  ℕ, ◌+◌, Bool, true, false, ◌&&◌, not, List, [], ◌∷◌, Option, none, some, ltb, leb, ◌==◌,
  if◌then◌else◌, length, filter, contains,
}
use backup_x.Base.Text.{Text, text_eq}
use backup_x.AgentQueue.{
  AgentCommand, Queue, Status, CommandType, pending, dispatched, failed, timeout, run_task,
  restore_record, is_active,
}

pub record AgentCommandQueueSummary : Type 0 where
  pub node_id : ℕ
  pub pending : ℕ
  pub dispatched : ℕ
  pub running : ℕ
  pub depth : ℕ
  pub timeouts : ℕ
  pub last_error : Text
  pub oldest_active_at : Option ℕ

abbrev pub Summaries : Type 0
Summaries = List (ℕ × AgentCommandQueueSummary)

abbrev pub no_summary : AgentCommandQueueSummary
no_summary = record {
  node_id = 0;
  pending = 0;
  dispatched = 0;
  running = 0;
  depth = 0;
  timeouts = 0;
  last_error = [];
  oldest_active_at = none;
}

pub find_summary : ℕ → Summaries → Option AgentCommandQueueSummary
find_summary node [] = none
find_summary node ((k, s) ∷ rest) =
    let later = find_summary node rest in if k == node then some s else later

-- `summaries[node]`, the zero value for a missing key.
pub summary_or : Option AgentCommandQueueSummary → AgentCommandQueueSummary
summary_or none = no_summary
summary_or (some s) = s

pub oldest_time : Option ℕ → Option ℕ → Option ℕ
oldest_time current none = current
oldest_time none (some candidate) = some candidate
oldest_time (some current) (some candidate) =
    if ltb candidate current then some candidate else some current

abbrev pub is_long_running : CommandType → Bool
is_long_running run_task = true
is_long_running restore_record = true
is_long_running _ = false

-- The body of the loop of activeQueueSummaries on the summary of the command's node.
pub add_by_status : Status → AgentCommand → AgentCommandQueueSummary → AgentCommandQueueSummary
add_by_status pending cmd s = record s {
  pending = s.pending + 1;
  depth = s.depth + 1;
  oldest_active_at = oldest_time s.oldest_active_at (some cmd.created_at);
}
add_by_status dispatched cmd s = record s {
  dispatched = s.dispatched + 1;
  depth = s.depth + 1;
  running = if is_long_running cmd.type then s.running + 1 else s.running;
  oldest_active_at = oldest_time s.oldest_active_at cmd.dispatched_at;
}
add_by_status _ cmd s = s

pub add_command : AgentCommand → AgentCommandQueueSummary → AgentCommandQueueSummary
add_command cmd s = add_by_status cmd.status cmd (record s { node_id = cmd.node_id })

pub add_active : List AgentCommand → Summaries → Summaries
add_active [] summaries = summaries
add_active (cmd ∷ cmds) summaries =
    add_active cmds
      ((cmd.node_id, add_command cmd (summary_or (find_summary cmd.node_id summaries))) ∷ summaries)

-- ORDER BY node_id on rows that are in another order already, which it keeps within a node.
pub insert_by_node : AgentCommand → List AgentCommand → List AgentCommand
insert_by_node c [] = c ∷ []
insert_by_node c (d ∷ cs) =
    let further = insert_by_node c cs in if ltb d.node_id c.node_id then d ∷ further else c ∷ d ∷ cs

pub sort_by_node : List AgentCommand → List AgentCommand
sort_by_node [] = []
sort_by_node (c ∷ cs) = insert_by_node c (sort_by_node cs)

pub active_queue_summaries : Queue → Summaries
active_queue_summaries q = add_active (sort_by_node (filter (λ c. is_active c.status) q.rows)) []

abbrev pub is_timeout : Status → Bool
is_timeout timeout = true
is_timeout _ = false

abbrev is_failure : Status → Bool
is_failure failed = true
is_failure timeout = true
is_failure _ = false

-- The nodes of the rows, each once.
pub nodes_of : List AgentCommand → List ℕ
nodes_of [] = []
nodes_of (c ∷ cs) =
    let rest = nodes_of cs in if contains rest c.node_id then rest else c.node_id ∷ rest

pub timeouts_of : ℕ → List AgentCommand → ℕ
timeouts_of node rows = length (filter (λ c. is_timeout c.status && (c.node_id == node)) rows)

pub add_timeouts : List AgentCommand → List ℕ → Summaries → Summaries
add_timeouts rows [] summaries = summaries
add_timeouts rows (node ∷ nodes) summaries = add_timeouts rows nodes (
    (
      node,
      record (summary_or (find_summary node summaries)) {
        node_id = node;
        timeouts = timeouts_of node rows;
      },
    )
    ∷ summaries)

-- COALESCE(completed_at, updated_at, created_at); updated_at is never missing.
pub ended_at : AgentCommand → ℕ
ended_at c = elim c.completed_at [ none ↦ c.updated_at | some t ↦ t ]

-- `status IN (failed, timeout) AND error_message <> ''`.
pub has_error : AgentCommand → Bool
has_error c = is_failure c.status && not (text_eq c.error_message [])

-- No row with an error of the same node ended later.
pub is_latest : List AgentCommand → AgentCommand → Bool
is_latest [] c = true
is_latest (d ∷ rows) c =
    let rest = is_latest rows c in
    if has_error d && (d.node_id == c.node_id) then leb (ended_at d) (ended_at c) && rest else rest

pub last_errors : List AgentCommand → List AgentCommand
last_errors rows = sort_by_node (reverse (filter (λ c. has_error c && is_latest rows c) rows))

-- The loop over the last errors, the first of each node.
pub add_errors : List ℕ → List AgentCommand → Summaries → Summaries
add_errors seen [] summaries = summaries
add_errors seen (c ∷ cs) summaries =
    let skipped = add_errors seen cs summaries in
    let s = record (summary_or (find_summary c.node_id summaries)) {
      node_id = c.node_id;
      last_error = c.error_message;
    } in
    let added = add_errors (c.node_id ∷ seen) cs ((c.node_id, s) ∷ summaries) in
    if contains seen c.node_id then skipped else added

pub apply_terminal_queue_stats : Queue → Summaries → Summaries
apply_terminal_queue_stats q summaries =
    add_errors [] (last_errors q.rows)
      (add_timeouts q.rows (nodes_of (filter (λ c. is_timeout c.status) q.rows)) summaries)

pub node_queue_summaries : Queue → Summaries
node_queue_summaries q = apply_terminal_queue_stats q (active_queue_summaries q)
