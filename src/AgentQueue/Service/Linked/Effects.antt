-- ===== src/AgentQueue/Service/Linked/Effects.antt =====
-- What a failed or stale command does to linked records, and which commands the monitor spares
-- (failLinkedRecord, commandStillActive and processStaleCommands in
-- server/internal/service/agent_service.go).
use mathlib.Core.Option.{some-injective}
use backup_x.Base.{
  ℕ, ◌-◌, ◌/◌, ◌<◌, ◌≡◌, ◌≢◌, refl, ◌∙◌, sym, ap, subst, inl, inr, true, false, ◌&&◌, List, [], ◌∷◌,
  Option, none, some, arith, ◌==◌, if◌then◌else◌, Bool-cases, Option-cases, ==_iff,
}
use backup_x.Base.Text.{Text, trim_space}
use backup_x.AgentQueue.{
  AgentCommand, Queue, CommandType, run_task, list_dir, restore_record, discover_db,
  delete_storage_object, dispatched, find_by_id,
}
use backup_x.AgentQueue.Rows.{IsQueue}
use backup_x.AgentQueue.Service.{is_empty, process_stale_commands}
use backup_x.AgentQueue.Service.Monitor.{process_stale_commands-row}
use backup_x.AgentQueue.Service.Linked.{
  LinkedRecord, failed, NodeState, Records, running, is_running, find_record, save_record,
  recently_seen, keeps_active, linked_record, failed_record, fail_found, fail_by_id, with_backups,
  with_restores, default_message, active_by_type, command_still_active, fail_by_type,
  fail_linked_record,
}

find_record_has_id :
    (a : ℕ) (rs : List LinkedRecord) (r : LinkedRecord) → find_record a rs ≡ some r → r.id ≡ a
unfolding find_record
find_record_has_id a [] r h = ground arith
find_record_has_id a (x ∷ rs) r h = elim (Bool-cases (x.id == a)) [
  | inl e ↦
      let same : x ≡ r = cc (rw (e, find_record) at h) in
      subst (λ y. y.id ≡ a) same ((==_iff x.id a).0 e)
  | inr e ↦ find_record_has_id a rs r (rw (e, find_record) at h)
]

find_record-save :
    (a : ℕ) (new : LinkedRecord) (rs : List LinkedRecord) (r : LinkedRecord)
    → find_record a rs ≡ some r
    → find_record a (save_record new rs) ≡ some (if new.id == a then new else r)
unfolding find_record save_record
find_record-save a new [] r h = ground arith
find_record-save a new (x ∷ rs) r h = ground (arith, h, find_record-save a new rs r)

-- The record that the failure of the record `id` leaves in the place of `r`, which is found at `a`.
abbrev pub left_of : Text → ℕ → ℕ → ℕ → LinkedRecord → LinkedRecord
left_of message now id a r =
    if (id == a) && is_running r.status
    then record r {
      status = failed;
      error_message = message;
      completed_at = some now;
      duration_seconds = (now - r.started_at) / 1000000000;
      updated_at = now;
    }
    else r

fail_found-left_of :
    (message : Text) (now id a : ℕ) (rs : List LinkedRecord) (r : LinkedRecord)
    → find_record a rs ≡ some r
    → find_record a (fail_found message now (find_record id rs) rs)
      ≡ some (left_of message now id a r)
unfolding fail_found failed_record
fail_found-left_of message now id a rs r h = elim (Bool-cases (id == a)) [
  | inl same ↦
      let here : find_record id rs ≡ some r =
        subst (λ b. find_record b rs ≡ some r) (sym ((==_iff id a).0 same)) h in
      let own : (r.id == a) ≡ true = (==_iff r.id a).1 (find_record_has_id a rs r h) in
      let saved = find_record-save a (failed_record message now r) rs r h in
      ground (arith, here, same, own, saved, h)
  | inr other ↦ elim (Option-cases (find_record id rs)) [
    | inl e ↦ ground (arith, e, other, h)
    | inr (x, e) ↦
        let has_id = find_record_has_id id rs x e in
        let apart : (x.id == a) ≡ false = ground (arith, has_id, other) in
        let saved = find_record-save a (failed_record message now x) rs r h in
        ground (arith, e, other, apart, saved, h)
  ]
]

fail_by_id-left_of :
    (message : Text) (now a id : ℕ) (rs rs' : List LinkedRecord) (r : LinkedRecord)
    → fail_by_id message now (some id) rs ≡ some rs'
    → find_record a rs ≡ some r
    → find_record a rs' ≡ some (left_of message now id a r)
unfolding fail_by_id
fail_by_id-left_of message now a id rs rs' r h found = elim (Bool-cases (id == 0)) [
  | inl e ↦ let error = rw (e, fail_by_id) at h in ground arith
  | inr e ↦
      let same : fail_found message now (find_record id rs) rs ≡ rs' =
        some-injective _ _ (rw (e, fail_by_id) at h) in
      subst (λ l. find_record a l ≡ some (left_of message now id a r)) same
        (fail_found-left_of message now id a rs r found)
]

with_backups-some :
    (db db' : Records) (o : Option (List LinkedRecord))
    → with_backups db o ≡ some db'
    → (rs : List LinkedRecord) × (o ≡ some rs) × (rs ≡ db'.backups)
with_backups-some db db' none h = absurd (ground arith)
with_backups-some db db' (some rs) h =
    (rs, refl, ap (λ (d : Records). d.backups) (some-injective _ _ h))

with_restores-some :
    (db db' : Records) (o : Option (List LinkedRecord))
    → with_restores db o ≡ some db'
    → db.backups ≡ db'.backups
with_restores-some db db' none h = absurd (ground arith)
with_restores-some db db' (some rs) h = ap (λ (d : Records). d.backups) (some-injective _ _ h)

restores-backups :
    (db db' : Records) (message : Text) (now : ℕ) (id : Option ℕ) (o : Option (List LinkedRecord))
    → (elim o [ none ↦ none | some records ↦ with_restores db (fail_by_id message now id records) ])
      ≡ some db'
    → db.backups ≡ db'.backups
restores-backups db db' message now id none h = absurd (ground arith)
restores-backups db db' message now id (some records) h =
    with_restores-some db db' (fail_by_id message now id records) h

-- The backup record that a failing command of a type leaves in the place of `r`.
abbrev pub left_by : CommandType → Option ℕ → Text → ℕ → ℕ → LinkedRecord → LinkedRecord
left_by run_task (some id) message now a r = left_of message now id a r
left_by _ _ message now a r = r

run_task_fails :
    (message : Text) (now a : ℕ) (id : Option ℕ) (db db' : Records) (r : LinkedRecord)
    → with_backups db (fail_by_id message now id db.backups) ≡ some db'
    → find_record a db.backups ≡ some r
    → find_record a db'.backups ≡ some (left_by run_task id message now a r)
unfolding fail_by_id
run_task_fails message now a none db db' r h found = absurd (ground arith)
run_task_fails message now a (some id) db db' r h found =
    let (rs, done, same) =
      with_backups-some db db' (fail_by_id message now (some id) db.backups) h in
    subst (λ l. find_record a l ≡ some (left_of message now id a r)) same
      (fail_by_id-left_of message now a id db.backups rs r done found)

module _ (record_id restore_record_id : Text → Option ℕ) where
  -- The monitor leaves a dispatched run_task command alone, however stale it is, while the record
  -- of its payload runs and its node is online and was seen after the threshold. The records and
  -- nodes are those at the start of the round.
  pub process_stale_commands_spares :
      (db : Records) (nodes : ℕ → Option NodeState) (threshold now a id : ℕ) (q : Queue)
      (c : AgentCommand) (r : LinkedRecord) (host : NodeState)
      → IsQueue q
      → find_by_id a q ≡ some c
      → c.status ≡ dispatched
      → c.type ≡ run_task
      → record_id c.payload ≡ some id
      → id ≢ 0
      → find_record id db.backups ≡ some r
      → r.status ≡ running
      → nodes c.node_id ≡ some host
      → host.is_online ≡ true
      → threshold < host.last_seen
      → find_by_id a
          (process_stale_commands
            (λ cmd. some (command_still_active record_id restore_record_id db nodes threshold cmd))
            threshold
            now
            q).0
        ≡ some c
  unfolding command_still_active active_by_type keeps_active recently_seen linked_record
  process_stale_commands_spares db nodes threshold now a id q c r host v found sent task linked
        given record_found runs at_node online seen =
      let active : command_still_active record_id restore_record_id db nodes threshold c ≡ true =
        rw (sent, task, linked, record_found, runs, at_node, online)
          (ground (arith, given, seen)) in
      process_stale_commands-row
        (λ cmd. some (command_still_active record_id restore_record_id db nodes threshold cmd))
        threshold now a q c v found
      ∙ ground (arith, active)

  -- When a command fails its linked record without an error, every backup record stays as it is but
  -- the one that the payload of a run_task command names: when that one runs, it becomes failed with
  -- the message, or the default one for a blank message, the time of the end and the duration. A
  -- record that does not run stays as it is.
  pub fail_linked_record_backups :
      (cmd : AgentCommand) (message : Text) (now a : ℕ) (db db' : Records) (r : LinkedRecord)
      → fail_linked_record record_id restore_record_id cmd message now db ≡ some db'
      → find_record a db.backups ≡ some r
      → let given = trim_space message in
        let shown = if is_empty given then default_message else given in
        find_record a db'.backups ≡ some (left_by cmd.type (record_id cmd.payload) shown now a r)
  unfolding fail_linked_record fail_by_type
  fail_linked_record_backups cmd message now a db db' r h found =
      let given = trim_space message in
      by_type cmd.type (if is_empty given then default_message else given) h
    where
      by_type :
          (type : CommandType) (shown : Text)
          → fail_by_type record_id restore_record_id type cmd shown now db ≡ some db'
          → find_record a db'.backups ≡ some (left_by type (record_id cmd.payload) shown now a r)
      by_type run_task shown k = run_task_fails shown now a (record_id cmd.payload) db db' r k found
      by_type restore_record shown k =
          subst (λ l. find_record a l ≡ some r)
            (restores-backups db db' shown now (restore_record_id cmd.payload) db.restores k) found
      by_type list_dir shown k =
          subst (λ l. find_record a l ≡ some r)
            (ap (λ (d : Records). d.backups) (some-injective _ _ k)) found
      by_type discover_db shown k =
          subst (λ l. find_record a l ≡ some r)
            (ap (λ (d : Records). d.backups) (some-injective _ _ k)) found
      by_type delete_storage_object shown k =
          subst (λ l. find_record a l ≡ some r)
            (ap (λ (d : Records). d.backups) (some-injective _ _ k)) found
