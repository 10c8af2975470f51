-- ===== src/Supervisor.antt =====
-- The supervisor of the background tasks (server/internal/lifecycle/supervisor.go).
--
-- What runs under the lock is one step, and so are the end of a task, the goroutine that waits for
-- the tasks, and the cancellation of the parent context. The start of a task's goroutine belongs to
-- the step that accepts the task. A nil supervisor, task or context is the
-- caller's.
pub mod Shutdown
mod Tests
use backup_x.Base.{
  ℕ, zero, suc, ◌+◌, ◌≡◌, Bool, true, false, ◌&&◌, ◌||◌, List, [], ◌∷◌, Option, none, some, ◌==◌,
  if◌then◌else◌,
}

-- `canceled` is ctx.Err() != nil, `tasks` the counter of the WaitGroup, `running` the number of the
-- goroutines of accepted tasks that have not ended, `once` that stopOnce ran, and `done` that the
-- channel is closed.
pub record Supervisor : Type 0 where
  pub stopping : Bool
  pub canceled : Bool
  pub tasks : ℕ
  pub running : ℕ
  pub once : Bool
  pub done : Bool

-- NewSupervisor on a parent that is canceled already, or not.
abbrev pub new_supervisor : Bool → Supervisor
new_supervisor parent_canceled = record {
  stopping = false;
  canceled = parent_canceled;
  tasks = 0;
  running = 0;
  once = false;
  done = false;
}

-- wg.Add(1).
pub add_task : Supervisor → Supervisor
add_task s = record s { tasks = suc s.tasks }

-- The start of the goroutine of a task.
pub start_task : Supervisor → Supervisor
start_task s = record s { running = suc s.running }

-- Go: the state after it, and whether the task was accepted.
pub go : Supervisor → Supervisor × Bool
unfolding add_task start_task
go s = if s.stopping || s.canceled then (s, false) else (start_task (add_task s), true)

-- wg.Done, which panics on a counter of 0.
abbrev pub count_down : ℕ → Supervisor → Option Supervisor
count_down zero s = none
count_down (suc n) s = some (record s { tasks = n })

abbrev pub end_one : ℕ → Supervisor → Option Supervisor
end_one zero s = none
end_one (suc n) s = count_down s.tasks (record s { running = n })

-- A goroutine that runs ends, with its deferred Done.
pub task_ends : Supervisor → Option Supervisor
task_ends s = end_one s.running s

-- The part of Shutdown that runs once.
pub stop : Supervisor → Supervisor
stop s = if s.once then s else record s { stopping = true; canceled = true; once = true }

-- The goroutine behind stop: wg.Wait returns when no task is left.
pub waiter_closes : Supervisor → Option Supervisor
waiter_closes s = if s.once && (s.tasks == 0) then some (record s { done = true }) else none

pub parent_cancels : Supervisor → Supervisor
parent_cancels s = record s { canceled = true }

-- What the select of Shutdown can return: nil only when `done` is closed, and the error of the
-- waiting context only when that is over.
pub data Returns (s : Supervisor) (expired : Bool) : Bool → Type 0 where
  returns_nil : s.done ≡ true → Returns s expired true
  returns_error : expired ≡ true → Returns s expired false

pub data Step (s : Supervisor) : Supervisor → Type 0 where
  goes : Step s (go s).0
  ends : {t : Supervisor} → task_ends s ≡ some t → Step s t
  stops : Step s (stop s)
  closes : {t : Supervisor} → waiter_closes s ≡ some t → Step s t
  cancels : Step s (parent_cancels s)

-- Any number of steps.
pub data Steps (s : Supervisor) : Supervisor → Type 0 where
  stay : Steps s s
  further : {t u : Supervisor} → Steps s t → Step t u → Steps s u
