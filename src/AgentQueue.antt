-- ===== src/AgentQueue.antt =====
-- The command queue of the agents: the table and its operations
-- (server/internal/repository/agent_command_repository.go, with the row of
-- server/internal/model/agent_command.go), and what the service does with them
-- (server/internal/service/agent_service.go).
--
-- The table is the list of its rows in the order of their ids. Each operation is one transaction
-- of a database that answers; an instant is a number, and `now` is what time.Now() gives. Payload
-- and result are JSON texts that the queue does not read.
pub mod Rows
pub mod Transitions
pub mod Claim
pub mod Service
pub mod Summaries
mod Tests
use backup_x.Base.{
  ℕ, ◌+◌, Bool, true, false, ◌&&◌, ◌||◌, not, List, [], ◌∷◌, ◌++◌, Option, none, some, ltb, ◌==◌,
  if◌then◌else◌, filter,
}
use backup_x.Base.Text.{Text, codes}

pub data Status : Type 0 where
  pending dispatched succeeded failed timeout : Status

pub data CommandType : Type 0 where
  run_task list_dir restore_record discover_db delete_storage_object : CommandType

pub record AgentCommand : Type 0 where
  pub id : ℕ
  pub node_id : ℕ
  pub type : CommandType
  pub status : Status
  pub payload : Text
  pub result : Text
  pub error_message : Text
  pub dispatched_at : Option ℕ
  pub completed_at : Option ℕ
  pub created_at : ℕ
  pub updated_at : ℕ

pub record Queue : Type 0 where
  pub rows : List AgentCommand
  pub next_id : ℕ

abbrev pub is_pending : Status → Bool
is_pending pending = true
is_pending _ = false

abbrev pub is_dispatched : Status → Bool
is_dispatched dispatched = true
is_dispatched _ = false

-- `status IN (pending, dispatched)`.
abbrev pub is_active : Status → Bool
is_active pending = true
is_active dispatched = true
is_active _ = false

-- UPDATE … WHERE: the rows after it, and RowsAffected.
pub update_where :
    (AgentCommand → Bool)
    → (AgentCommand → AgentCommand)
    → List AgentCommand
    → List AgentCommand × ℕ
update_where test change [] = ([], 0)
update_where test change (c ∷ cs) =
    let (cs', n) = update_where test change cs in
    if test c then (change c ∷ cs', n + 1) else (c ∷ cs', n)

-- The first row in the order of the ids that passes a test.
pub first_where : (AgentCommand → Bool) → List AgentCommand → Option AgentCommand
first_where test [] = none
first_where test (c ∷ cs) = let rest = first_where test cs in if test c then some c else rest

-- Create: the database assigns the id.
pub create : AgentCommand → ℕ → Queue → Queue × AgentCommand
create cmd now q =
    let row = record cmd { id = q.next_id; created_at = now; updated_at = now } in
    (record { rows = q.rows ++ row ∷ []; next_id = q.next_id + 1 }, row)

pub find_by_id : ℕ → Queue → Option AgentCommand
find_by_id id q = first_where (λ c. c.id == id) q.rows

-- `node_id = ? AND status = pending`.
pub is_claimable : ℕ → AgentCommand → Bool
is_claimable node c = (c.node_id == node) && is_pending c.status

-- `id = ? AND status = pending`.
pub is_still_pending : ℕ → AgentCommand → Bool
is_still_pending id c = (c.id == id) && is_pending c.status

pub dispatch_row : ℕ → AgentCommand → AgentCommand
dispatch_row now c = record c { status = dispatched; dispatched_at = some now; updated_at = now }

-- ClaimPending. The command that it returns has the two columns set on the copy that was read.
pub claim_pending : ℕ → ℕ → Queue → Queue × Option AgentCommand
claim_pending node now q = elim (first_where (is_claimable node) q.rows) [
  | none ↦ (q, none)
  | some item ↦
      let (rows', affected) = update_where (is_still_pending item.id) (dispatch_row now) q.rows in
      if affected == 0 then (q, none) else (
        record q { rows = rows' },
        some (record item { status = dispatched; dispatched_at = some now }),
      )
]

-- `id = ? AND node_id = ? AND status = dispatched`.
pub is_completable : AgentCommand → AgentCommand → Bool
is_completable cmd c = (c.id == cmd.id) && ((c.node_id == cmd.node_id) && is_dispatched c.status)

pub complete_row : AgentCommand → ℕ → AgentCommand → AgentCommand
complete_row cmd now c = record c {
  status = cmd.status;
  error_message = cmd.error_message;
  result = cmd.result;
  completed_at = cmd.completed_at;
  updated_at = now;
}

pub complete_dispatched : AgentCommand → ℕ → Queue → Queue × Bool
complete_dispatched cmd now q =
    let (rows', affected) = update_where (is_completable cmd) (complete_row cmd now) q.rows in
    (record q { rows = rows' }, ltb 0 affected)

abbrev before : Option ℕ → ℕ → Bool
before none threshold = false
before (some t) threshold = ltb t threshold

-- `status = dispatched AND dispatched_at < ?`.
pub is_stale_dispatched : ℕ → AgentCommand → Bool
is_stale_dispatched threshold c = is_dispatched c.status && before c.dispatched_at threshold

-- `(status = pending AND created_at < ?) OR (status = dispatched AND dispatched_at < ?)`.
pub is_stale_active : ℕ → AgentCommand → Bool
is_stale_active threshold c =
    (is_pending c.status && ltb c.created_at threshold) || is_stale_dispatched threshold c

abbrev timeout_message : Text
timeout_message = codes "agent did not report result before timeout"

pub mark_row : ℕ → AgentCommand → AgentCommand
mark_row now c = record c { status = timeout; error_message = timeout_message; updated_at = now }

pub mark_stale_timeout : ℕ → ℕ → Queue → Queue × ℕ
mark_stale_timeout threshold now q =
    let (rows', affected) = update_where (is_stale_dispatched threshold) (mark_row now) q.rows in
    (record q { rows = rows' }, affected)

-- `id = ? AND status IN (pending, dispatched)`.
pub is_active_row : ℕ → AgentCommand → Bool
is_active_row id c = (c.id == id) && is_active c.status

pub timeout_row : AgentCommand → ℕ → AgentCommand → AgentCommand
timeout_row cmd now c = record c {
  status = timeout;
  error_message = cmd.error_message;
  completed_at = cmd.completed_at;
  updated_at = now;
}

pub timeout_active : AgentCommand → ℕ → Queue → Queue × Bool
timeout_active cmd now q =
    let (rows', affected) = update_where (is_active_row cmd.id) (timeout_row cmd now) q.rows in
    (record q { rows = rows' }, ltb 0 affected)

pub list_stale_dispatched : ℕ → Queue → List AgentCommand
list_stale_dispatched threshold q = filter (is_stale_dispatched threshold) q.rows

pub list_stale_active : ℕ → Queue → List AgentCommand
list_stale_active threshold q = filter (is_stale_active threshold) q.rows

pub is_active_of : ℕ → AgentCommand → Bool
is_active_of node c = (c.node_id == node) && is_active c.status

pub list_pending_by_node : ℕ → Queue → List AgentCommand
list_pending_by_node node q = filter (is_active_of node) q.rows
