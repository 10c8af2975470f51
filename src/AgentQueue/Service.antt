-- ===== src/AgentQueue/Service.antt =====
-- The service on top of the queue: a report of an agent, and the monitor of stale commands
-- (SubmitCommandResult, EnqueueCommand, processStaleCommands and agentCommandFailureMessage in
-- server/internal/service/agent_service.go).
--
-- Failing the record that a command is linked to is an event, the command with the message; Linked
-- has what follows from it. What commandStillActive answers, also in Linked, is the argument
-- `still_active`; none is an error.
pub mod Race
pub mod Monitor
pub mod Linked
use backup_x.Base.{
  ℕ, ◌+◌, Bool, true, false, not, ◌||◌, List, [], ◌∷◌, ◌++◌, Option, none, some, ◌==◌,
  if◌then◌else◌,
}
use backup_x.Base.Text.{Text, codes, trim_space}
use backup_x.AgentQueue.{
  AgentCommand, Queue, Status, CommandType, pending, succeeded, failed, timeout, find_by_id, create,
  complete_dispatched, timeout_active, list_stale_active, timeout_message,
}

pub record CommandResult : Type 0 where
  pub success : Bool
  pub error_message : Text
  pub result : Text

-- What a report comes to: an error, nothing more to do, or the linked record to fail.
pub data Outcome : Type 0 where
  not_found forbidden accepted : Outcome
  fails_linked : AgentCommand → Text → Outcome

abbrev pub is_failed : Status → Bool
is_failed failed = true
is_failed _ = false

abbrev pub is_empty : Text → Bool
is_empty [] = true
is_empty (c ∷ cs) = false

-- agentCommandFailureMessage.
unfoldable pub failure_message : Text → Text
failure_message message =
    let trimmed = trim_space message in
    if is_empty trimmed then codes "Agent 命令执行失败" else codes "Agent 命令执行失败：" ++ trimmed

-- The command that the service writes back.
unfoldable pub reported : AgentCommand → CommandResult → ℕ → AgentCommand
reported cmd r now = record cmd {
  status = if r.success then succeeded else failed;
  error_message = r.error_message;
  result = if is_empty r.result then cmd.result else r.result;
  completed_at = some now;
}

-- The part of SubmitCommandResult behind the look-up.
unfoldable pub report_command : ℕ → ℕ → CommandResult → AgentCommand → Queue → Queue × Outcome
report_command node now r cmd q =
    let written = reported cmd r now in
    let (q', completed) = complete_dispatched written now q in
    if not (cmd.node_id == node)
    then (q, forbidden)
    else if is_failed cmd.status
    then (q, if r.success then accepted else fails_linked cmd (failure_message r.error_message))
    else if not completed || r.success
    then (q', accepted)
    else (q', fails_linked written (failure_message r.error_message))

unfoldable pub submit_command_result : ℕ → ℕ → ℕ → CommandResult → Queue → Queue × Outcome
submit_command_result node now id r q = elim (find_by_id id q) [
  | none ↦ (q, not_found)
  | some cmd ↦ report_command node now r cmd q
]

abbrev new_command : ℕ → CommandType → Text → AgentCommand
new_command node type payload = record {
  id = 0;
  node_id = node;
  type = type;
  status = pending;
  payload = payload;
  result = [];
  error_message = [];
  dispatched_at = none;
  completed_at = none;
  created_at = 0;
  updated_at = 0;
}

-- EnqueueCommand; none when the node is missing.
unfoldable pub enqueue_command : ℕ → CommandType → Text → ℕ → Queue → Queue × Option ℕ
enqueue_command node type payload now q =
    let (q', row) = create (new_command node type payload) now q in
    if node == 0 then (q, none) else (q', some row.id)

-- The command that the monitor writes back.
unfoldable pub timed_out : AgentCommand → ℕ → AgentCommand
timed_out cmd now = record cmd {
  status = timeout;
  error_message = timeout_message;
  completed_at = some now;
}

-- One round of the loop over the stale commands, and the linked records to fail.
unfoldable pub expire_command :
    (AgentCommand → Option Bool) → ℕ → AgentCommand → Queue → Queue × List AgentCommand
expire_command still_active now cmd q =
    let written = timed_out cmd now in
    let (q', done) = timeout_active written now q in
    elim (still_active cmd) [
      | none ↦ (q, [])
      | some true ↦ (q, [])
      | some false ↦ (q', if done then written ∷ [] else [])
    ]

unfoldable pub expire_commands :
    (AgentCommand → Option Bool) → ℕ → List AgentCommand → Queue → Queue × List AgentCommand
expire_commands still_active now [] q = (q, [])
expire_commands still_active now (cmd ∷ cmds) q =
    let (q', linked) = expire_command still_active now cmd q in
    let (q'', more) = expire_commands still_active now cmds q' in (q'', linked ++ more)

-- processStaleCommands, at one instant for all of its updates.
unfoldable pub process_stale_commands :
    (AgentCommand → Option Bool) → ℕ → ℕ → Queue → Queue × List AgentCommand
process_stale_commands still_active threshold now q =
    expire_commands still_active now (list_stale_active threshold q) q
