-- ===== src/AgentQueue/Service/Linked.antt =====
-- The records that commands are linked to: whether a stale command is still active, and the failure
-- of the record of a command that failed or timed out (commandStillActive, nodeRecentlySeen and
-- failLinkedRecord in server/internal/service/agent_service.go).
--
-- The payloads are JSON texts: `record_id` and `restore_record_id` decode the one field that is
-- read, and are none for a text that does not decode. The database answers.
pub mod Effects
mod Tests
use backup_x.Base.{
  ℕ, ◌-◌, ◌/◌, Bool, true, false, ◌&&◌, ◌||◌, List, [], ◌∷◌, Option, none, some, ltb, ◌==◌,
  if◌then◌else◌,
}
use backup_x.Base.Text.{Text, codes, trim_space}
use backup_x.AgentQueue.{AgentCommand, CommandType, run_task, restore_record, is_dispatched}
use backup_x.AgentQueue.Service.{is_empty}

pub data RecordStatus : Type 0 where
  running succeeded failed : RecordStatus

-- The columns of a backup or restore record that are read or written here.
pub record LinkedRecord : Type 0 where
  pub id : ℕ
  pub status : RecordStatus
  pub error_message : Text
  pub started_at : ℕ
  pub completed_at : Option ℕ
  pub duration_seconds : ℕ
  pub updated_at : ℕ

pub record NodeState : Type 0 where
  pub is_online : Bool
  pub last_seen : ℕ

-- The two tables; the one of the restore records is none when its repository is not set.
pub record Records : Type 0 where
  pub backups : List LinkedRecord
  pub restores : Option (List LinkedRecord)

abbrev pub is_running : RecordStatus → Bool
is_running running = true
is_running _ = false

pub find_record : ℕ → List LinkedRecord → Option LinkedRecord
find_record id [] = none
find_record id (r ∷ rs) = let rest = find_record id rs in if r.id == id then some r else rest

-- Save of a record.
pub save_record : LinkedRecord → List LinkedRecord → List LinkedRecord
save_record new [] = []
save_record new (r ∷ rs) =
    let rest = save_record new rs in if r.id == new.id then new ∷ rs else r ∷ rest

-- nodeRecentlySeen on the node that was found.
pub recently_seen : Option NodeState → ℕ → Bool
recently_seen none threshold = false
recently_seen (some host) threshold = host.is_online && ltb threshold host.last_seen

-- Whether the linked record keeps its command active.
pub keeps_active : Option LinkedRecord → Option NodeState → ℕ → Bool
keeps_active none host threshold = false
keeps_active (some r) host threshold =
    is_running r.status && (recently_seen host threshold || ltb threshold r.updated_at)

-- The record of a decoded id; 0 is no id.
pub linked_record : Option ℕ → List LinkedRecord → Option LinkedRecord
linked_record none records = none
linked_record (some id) records = if id == 0 then none else find_record id records

abbrev stored : Option (List LinkedRecord) → List LinkedRecord
stored none = []
stored (some records) = records

-- The failed record.
pub failed_record : Text → ℕ → LinkedRecord → LinkedRecord
failed_record message now r = record r {
  status = failed;
  error_message = message;
  completed_at = some now;
  duration_seconds = (now - r.started_at) / 1000000000;
  updated_at = now;
}

-- A record that was found: failed if it runs, else left alone.
pub fail_found : Text → ℕ → Option LinkedRecord → List LinkedRecord → List LinkedRecord
fail_found message now none records = records
fail_found message now (some r) records =
    if is_running r.status then save_record (failed_record message now r) records else records

-- The part of failLinkedRecord behind the decoding; none is an error.
pub fail_by_id : Text → ℕ → Option ℕ → List LinkedRecord → Option (List LinkedRecord)
fail_by_id message now none records = none
fail_by_id message now (some id) records =
    if id == 0 then none else some (fail_found message now (find_record id records) records)

abbrev with_backups : Records → Option (List LinkedRecord) → Option Records
with_backups db none = none
with_backups db (some records) = some (record db { backups = records })

abbrev with_restores : Records → Option (List LinkedRecord) → Option Records
with_restores db none = none
with_restores db (some records) = some (record db { restores = some records })

abbrev pub default_message : Text
default_message = codes "Agent 未在超时前回传状态（节点可能已离线或崩溃）"

module _ (record_id restore_record_id : Text → Option ℕ) where
  -- By the type of the command.
  pub active_by_type : CommandType → AgentCommand → Records → Option NodeState → ℕ → Bool
  active_by_type run_task cmd db host threshold =
      keeps_active (linked_record (record_id cmd.payload) db.backups) host threshold
  active_by_type restore_record cmd db host threshold =
      keeps_active (linked_record (restore_record_id cmd.payload) (stored db.restores)) host
        threshold
  active_by_type _ cmd db host threshold = false

  pub command_still_active : Records → (ℕ → Option NodeState) → ℕ → AgentCommand → Bool
  command_still_active db nodes threshold cmd =
      is_dispatched cmd.status && active_by_type cmd.type cmd db (nodes cmd.node_id) threshold

  pub fail_by_type : CommandType → AgentCommand → Text → ℕ → Records → Option Records
  fail_by_type run_task cmd message now db =
      with_backups db (fail_by_id message now (record_id cmd.payload) db.backups)
  fail_by_type restore_record cmd message now db = elim db.restores [
    | none ↦ none
    | some records ↦
        with_restores db (fail_by_id message now (restore_record_id cmd.payload) records)
  ]
  fail_by_type _ cmd message now db = some db

  -- failLinkedRecord; a caller that gives no message gives the empty one here.
  pub fail_linked_record : AgentCommand → Text → ℕ → Records → Option Records
  fail_linked_record cmd message now db =
      let given = trim_space message in
      fail_by_type cmd.type cmd (if is_empty given then default_message else given) now db
