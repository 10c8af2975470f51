-- ===== src/Supervisor/Tests.antt =====
-- A run of the supervisor (server/internal/lifecycle/supervisor.go).
use backup_x.Base.{◌≡◌, refl, true, false}
use backup_x.Supervisor.{
  Supervisor, new_supervisor, add_task, start_task, go, task_ends, stop, waiter_closes,
  parent_cancels, Returns, returns_nil, goes, ends, stops, closes, cancels, Steps, stay, further,
}
use backup_x.Supervisor.Shutdown.{shutdown_drains, shutdown_completes}

abbrev stopped_busy : Supervisor
stopped_busy = record {
  stopping = true;
  canceled = true;
  tasks = 1;
  running = 1;
  once = true;
  done = false;
}

abbrev closed : Supervisor
closed = record stopped_busy { tasks = 0; running = 0; done = true }

-- One task is accepted, and the shutdown begins while it runs.
reaches_busy : Steps (new_supervisor false) stopped_busy
unfolding go add_task start_task stop
reaches_busy = further (further stay goes) stops

reaches_closed : Steps (new_supervisor false) closed
unfolding task_ends waiter_closes
reaches_closed =
    further {t = record stopped_busy { tasks = 0; running = 0 }} (further reaches_busy (ends refl))
      (closes refl)

canceled_again : Steps closed closed
unfolding parent_cancels
canceled_again = further stay cancels

shutdown_drains_example : (closed.running ≡ 0) × ((go closed).1 ≡ false)
shutdown_drains_example =
    shutdown_drains false false closed reaches_closed (returns_nil refl) closed canceled_again

shutdown_completes_example : (t : Supervisor) × Steps stopped_busy t × Returns t false true
shutdown_completes_example = shutdown_completes false stopped_busy reaches_busy refl
