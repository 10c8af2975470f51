-- ===== src/AgentQueue/Service/Linked/Tests.antt =====
-- A running record and the command that it is linked to (server/internal/service/agent_service.go).
use backup_x.Base.{ℕ, ◌≡◌, refl, true, false, [], ◌∷◌, Option, none, some, arith}
use backup_x.Base.Text.{Text, codes, trim_space}
use backup_x.AgentQueue.{AgentCommand, Queue, run_task, dispatched, find_by_id, first_where}
use backup_x.AgentQueue.Rows.{IsQueue}
use backup_x.AgentQueue.Service.{process_stale_commands}
use backup_x.AgentQueue.Service.Linked.{
  LinkedRecord, NodeState, Records, running, failed, find_record, save_record, recently_seen,
  keeps_active, linked_record, failed_record, fail_found, fail_by_id, active_by_type,
  command_still_active, fail_by_type, fail_linked_record,
}
use backup_x.AgentQueue.Service.Linked.Effects.{
  process_stale_commands_spares, left_by, fail_linked_record_backups,
}

abbrev command : AgentCommand
command = record {
  id = 1;
  node_id = 7;
  type = run_task;
  status = dispatched;
  payload = codes "{\"taskId\":2,\"recordId\":5}";
  result = [];
  error_message = [];
  dispatched_at = some 100;
  completed_at = none;
  created_at = 90;
  updated_at = 100;
}

abbrev queue : Queue
queue = record { rows = command ∷ []; next_id = 2 }

queue-IsQueue : IsQueue queue
queue-IsQueue = record { ascending = ground arith; given_out = ground arith }

abbrev running_record : LinkedRecord
running_record = record {
  id = 5;
  status = running;
  error_message = [];
  started_at = 100;
  completed_at = none;
  duration_seconds = 0;
  updated_at = 110;
}

abbrev db : Records
db = record { backups = running_record ∷ []; restores = none }

-- A decoder that reads the record 5 from every payload.
abbrev decodes_5 : Text → Option ℕ
decodes_5 payload = some 5

abbrev no_id : Text → Option ℕ
no_id payload = none

abbrev online : ℕ → Option NodeState
online node_id = some (record { is_online = true; last_seen = 4000 })

found : find_by_id 1 queue ≡ some command
unfolding find_by_id first_where
found = refl

finds_record : find_record 5 (running_record ∷ []) ≡ some running_record
unfolding find_record
finds_record = refl

process_stale_commands_spares_example :
    find_by_id 1
      (process_stale_commands
        (λ cmd. some (command_still_active decodes_5 no_id db online 3000 cmd))
        3000
        5000
        queue).0
    ≡ some command
process_stale_commands_spares_example =
    process_stale_commands_spares decodes_5 no_id db online 3000 5000 1 5 queue command
      running_record (record { is_online = true; last_seen = 4000 }) queue-IsQueue found refl refl
      refl (λ e. ground (arith, e)) finds_record refl refl refl (omega arith)

-- A second from its start, the record fails.
abbrev failed_db : Records
failed_db = record db {
  backups =
      record running_record {
        status = failed;
        error_message = codes "disk full";
        completed_at = some 1000000100;
        duration_seconds = 1;
        updated_at = 1000000100;
      }
      ∷ [];
}

fails :
    fail_linked_record decodes_5 no_id command (codes " disk full ") 1000000100 db ≡ some failed_db
unfolding fail_linked_record fail_by_type fail_by_id fail_found failed_record find_record
    save_record trim_space
fails = refl

fail_linked_record_backups_example :
    find_record 5 failed_db.backups
    ≡ some (
        left_by command.type
          (decodes_5 command.payload)
          (codes "disk full")
          1000000100
          5
          running_record)
unfolding trim_space
fail_linked_record_backups_example =
    fail_linked_record_backups decodes_5 no_id command (codes " disk full ") 1000000100 5 db
      failed_db running_record fails finds_record

-- An offline node keeps no command active, unless the record was updated after the threshold.
activity :
    (command_still_active decodes_5 no_id db (λ node_id. none) 3000 command ≡ false)
    × (command_still_active decodes_5 no_id db (λ node_id. none) 105 command ≡ true)
unfolding command_still_active active_by_type keeps_active recently_seen linked_record find_record
activity = (refl, refl)
