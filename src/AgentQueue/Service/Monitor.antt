-- ===== src/AgentQueue/Service/Monitor.antt =====
-- What one round of the monitor does to the table (processStaleCommands in
-- server/internal/service/agent_service.go).
use backup_x.Base.{
  ℕ, ◌≡◌, refl, ◌∙◌, ap, subst, inl, inr, Bool, true, false, ◌&&◌, ◌||◌, not, List, [], ◌∷◌, Option,
  none, some, arith, ◌==◌, if◌then◌else◌, filter, contains, Bool-cases, Option-cases, ==_iff,
}
use backup_x.AgentQueue.{
  AgentCommand, Queue, timeout, first_where, find_by_id, timeout_active, list_stale_active,
  is_stale_active, is_stale_dispatched, is_active, is_active_row, timeout_row, timeout_message,
}
use backup_x.AgentQueue.Rows.{
  above_not_listed, IsQueue, Ascending, row_ids, find_by_id-update, find_by_id_has_id,
}
use backup_x.AgentQueue.Service.{timed_out, expire_command, expire_commands, process_stale_commands}

-- The commands that the monitor ends: known not to be still active.
abbrev pub is_given_up : (AgentCommand → Option Bool) → AgentCommand → Bool
is_given_up still_active c = elim (still_active c) [ none ↦ false | some active ↦ not active ]

-- A row that the monitor ended.
abbrev pub expired : ℕ → AgentCommand → AgentCommand
expired now c = record c {
  status = timeout;
  error_message = timeout_message;
  completed_at = some now;
  updated_at = now;
}

abbrev is_listed : (AgentCommand → Option Bool) → List AgentCommand → ℕ → Bool
is_listed still_active [] a = false
is_listed still_active (cmd ∷ cmds) a =
    (is_given_up still_active cmd && (cmd.id == a)) || is_listed still_active cmds a

abbrev row_after : ℕ → Bool → AgentCommand → AgentCommand
row_after now ends c = if ends && is_active c.status then expired now c else c

module _ (still_active : AgentCommand → Option Bool) (now : ℕ) (a : ℕ) where
  expire_command-row :
      (cmd : AgentCommand) (q : Queue) (c : AgentCommand)
      → find_by_id a q ≡ some c
      → find_by_id a (expire_command still_active now cmd q).0
        ≡ some (row_after now (is_given_up still_active cmd && (cmd.id == a)) c)
  unfolding expire_command timeout_active timed_out timeout_row
  expire_command-row cmd q c found =
      let has_id = find_by_id_has_id a q c found in
      let row =
        find_by_id-update (is_active_row cmd.id) (timeout_row (timed_out cmd now) now) q a c
          (λ _. refl) found in
      elim (Option-cases (still_active cmd)) [
        | inl e ↦ rw (e, expire_command, is_given_up) found
        | inr (true, e) ↦ rw (e, expire_command, is_given_up) found
        | inr (false, e) ↦
            rw (e, expire_command, is_given_up)
              (unfold is_active_row in ground (arith, row, has_id))
      ]

  row_after-row_after :
      (e f : Bool) (c : AgentCommand)
      → row_after now f (row_after now e c) ≡ row_after now (e || f) c
  row_after-row_after e f c = ground arith

  expire_commands-row :
      (cmds : List AgentCommand) (q : Queue) (c : AgentCommand)
      → find_by_id a q ≡ some c
      → find_by_id a (expire_commands still_active now cmds q).0
        ≡ some (row_after now (is_listed still_active cmds a) c)
  unfolding expire_commands
  expire_commands-row [] q c found = found
  expire_commands-row (cmd ∷ cmds) q c found =
      expire_commands-row cmds (expire_command still_active now cmd q).0
        (row_after now (is_given_up still_active cmd && (cmd.id == a)) c)
        (expire_command-row cmd q c found)
      ∙ ap some (row_after-row_after _ (is_listed still_active cmds a) c)

module _ (still_active : AgentCommand → Option Bool) (threshold : ℕ) (a : ℕ) where
  listed_absent :
      (cs : List AgentCommand)
      → contains (row_ids cs) a ≡ false
      → is_listed still_active (filter (is_stale_active threshold) cs) a ≡ false
  listed_absent [] h = refl
  listed_absent (c ∷ cs) h = ground (arith, listed_absent cs)

  listed_found :
      (cs : List AgentCommand) (c : AgentCommand)
      → Ascending (row_ids cs)
      → first_where (λ x. x.id == a) cs ≡ some c
      → is_listed still_active (filter (is_stale_active threshold) cs) a
        ≡ is_stale_active threshold c && is_given_up still_active c
  unfolding first_where
  listed_found [] c v h = ground arith
  listed_found (x ∷ cs) c v h = elim (Bool-cases (x.id == a)) [
    | inl e ↦
        let same : x ≡ c = cc (rw (e, first_where) at h) in
        let gone : contains (row_ids cs) a ≡ false =
          rw ((==_iff _ _).0 e) at (above_not_listed x.id (row_ids cs) v.0) in
        subst
          (λ y.
            is_listed still_active (filter (is_stale_active threshold) (x ∷ cs)) a
            ≡ is_stale_active threshold y && is_given_up still_active y)
          same (ground (arith, listed_absent cs gone))
    | inr e ↦ let later = rw (e, first_where) at h in ground (arith, listed_found cs c v.1 later)
  ]

stale_active :
    (threshold : ℕ) (c : AgentCommand)
    → is_stale_active threshold c ≡ true
    → is_active c.status ≡ true
unfolding is_stale_active is_stale_dispatched
stale_active threshold c h = ground arith

-- A round of the monitor ends, as timed out, exactly the rows of the commands that are stale and
-- that are known not to be still active; every other row stays as it is.
pub process_stale_commands-row :
    (still_active : AgentCommand → Option Bool) (threshold now a : ℕ) (q : Queue) (c : AgentCommand)
    → IsQueue q
    → find_by_id a q ≡ some c
    → find_by_id a (process_stale_commands still_active threshold now q).0
      ≡ some
          (if is_stale_active threshold c && is_given_up still_active c then expired now c else c)
unfolding process_stale_commands list_stale_active find_by_id
process_stale_commands-row still_active threshold now a q c v found =
    expire_commands-row still_active now a (filter (is_stale_active threshold) q.rows) q c found
    ∙ ground (
      arith,
      listed_found still_active threshold a q.rows c v.ascending found,
      stale_active threshold c,
    )
