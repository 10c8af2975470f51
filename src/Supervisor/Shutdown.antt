-- ===== src/Supervisor/Shutdown.antt =====
-- What a return of Shutdown promises (server/internal/lifecycle/supervisor.go).
use backup_x.Base.{
  ℕ, zero, suc, ◌≡◌, refl, sym, ◌∙◌, ap, subst, inl, inr, Bool, true, false, ◌&&◌, ◌||◌, some,
  arith, ◌==◌, if◌then◌else◌, Bool-cases,
}
use backup_x.Supervisor.{
  Supervisor, new_supervisor, add_task, start_task, go, count_down, end_one, task_ends, stop,
  waiter_closes, parent_cancels, Returns, returns_nil, Step, goes, ends, stops, closes, cancels,
  Steps, stay, further,
}

-- The counter is that of the goroutines. A closed channel: stopping, and no task left. A supervisor that stops has canceled its tasks.
pub record IsSupervisor (s : Supervisor) : Type 0 where
  pub stops_once : s.once ≡ s.stopping
  pub stops_canceled : s.stopping ≡ true → s.canceled ≡ true
  pub done_stopped : s.done ≡ true → s.stopping ≡ true
  pub done_drained : s.done ≡ true → s.tasks ≡ 0
  pub counted : s.tasks ≡ s.running

new_supervisor-IsSupervisor :
    (parent_canceled : Bool) → IsSupervisor (new_supervisor parent_canceled)
new_supervisor-IsSupervisor parent_canceled = record {
  stops_once = refl;
  stops_canceled = λ h. ground (arith, h);
  done_stopped = λ h. ground (arith, h);
  done_drained = λ h. refl;
  counted = refl;
}

go-IsSupervisor : (s : Supervisor) → IsSupervisor s → IsSupervisor (go s).0
unfolding go add_task start_task
go-IsSupervisor s v = elim (Bool-cases (s.stopping || s.canceled)) [
  | inl e ↦ rw (e, go) v
  | inr e ↦
      rw (e, go)
        record {
          stops_once = v.stops_once;
          stops_canceled = v.stops_canceled;
          done_stopped = v.done_stopped;
          done_drained = λ h. ground (arith, v.done_stopped h);
          counted = ap (λ k. suc k) v.counted;
        }
]

count_down-some :
    (n : ℕ) (s t : Supervisor)
    → count_down n s ≡ some t
    → (m : ℕ) × (n ≡ suc m) × (record s { tasks = m } ≡ t)
count_down-some zero s t h = absurd (ground arith)
count_down-some (suc m) s t h = (m, refl, cc h)

end_one-some :
    (n : ℕ) (s t : Supervisor)
    → end_one n s ≡ some t
    → (m k : ℕ) × (n ≡ suc m) × (s.tasks ≡ suc k) × (record s { running = m; tasks = k } ≡ t)
end_one-some zero s t h = absurd (ground arith)
end_one-some (suc m) s t h =
    let (k, more, same) = count_down-some s.tasks (record s { running = m }) t h in
    (m, k, refl, more, same)

closed_of :
    (s t : Supervisor)
    → waiter_closes s ≡ some t
    → (s.once && (s.tasks == 0) ≡ true) × (record s { done = true } ≡ t)
unfolding waiter_closes
closed_of s t h = elim (Bool-cases (s.once && (s.tasks == 0))) [
  | inr e ↦ let blocked = rw (e, waiter_closes) at h in ground arith
  | inl e ↦ (e, cc (rw (e, waiter_closes) at h))
]

task_ends-IsSupervisor : (s t : Supervisor) → task_ends s ≡ some t → IsSupervisor s → IsSupervisor t
unfolding task_ends
task_ends-IsSupervisor s t h v =
    let (m, k, runs, more, same) = end_one-some s.running s t h in
    subst IsSupervisor same record {
      stops_once = v.stops_once;
      stops_canceled = v.stops_canceled;
      done_stopped = v.done_stopped;
      done_drained = λ d. omega (arith, more, v.done_drained d);
      counted = omega (arith, runs, more, v.counted);
    }

waiter_closes-IsSupervisor :
    (s t : Supervisor) → waiter_closes s ≡ some t → IsSupervisor s → IsSupervisor t
waiter_closes-IsSupervisor s t h v =
    let (free, same) = closed_of s t h in
    subst IsSupervisor same record {
      stops_once = v.stops_once;
      stops_canceled = v.stops_canceled;
      done_stopped = λ _. ground (arith, v.stops_once);
      done_drained = λ _. ground arith;
      counted = v.counted;
    }

stop-IsSupervisor : (s : Supervisor) → IsSupervisor s → IsSupervisor (stop s)
unfolding stop
stop-IsSupervisor s v = stopped s.once
  where
    stopped :
        (b : Bool)
        → IsSupervisor (if b then s else record s { stopping = true; canceled = true; once = true })
    stopped true = v
    stopped false = record {
      stops_once = refl;
      stops_canceled = λ _. refl;
      done_stopped = λ _. refl;
      done_drained = v.done_drained;
      counted = v.counted;
    }

Step-IsSupervisor : (s t : Supervisor) → Step s t → IsSupervisor s → IsSupervisor t
unfolding parent_cancels
Step-IsSupervisor s t goes v = go-IsSupervisor s v
Step-IsSupervisor s t (ends h) v = task_ends-IsSupervisor s t h v
Step-IsSupervisor s t stops v = stop-IsSupervisor s v
Step-IsSupervisor s t (closes h) v = waiter_closes-IsSupervisor s t h v
Step-IsSupervisor s t cancels v = record {
  stops_once = v.stops_once;
  stops_canceled = λ _. refl;
  done_stopped = v.done_stopped;
  done_drained = v.done_drained;
  counted = v.counted;
}

Steps-IsSupervisor : (s t : Supervisor) → Steps s t → IsSupervisor s → IsSupervisor t
Steps-IsSupervisor s t stay v = v
Steps-IsSupervisor s u (further {t = t} steps last) v =
    Step-IsSupervisor t u last (Steps-IsSupervisor s t steps v)

Step-keeps_done : (s t : Supervisor) → Step s t → s.done ≡ true → t.done ≡ true
unfolding go add_task start_task stop parent_cancels task_ends waiter_closes
Step-keeps_done s t goes h = ground arith
Step-keeps_done s t (ends e) h =
    let (m, k, runs, more, same) = end_one-some s.running s t e in subst (λ x. x.done ≡ true) same h
Step-keeps_done s t stops h = ground arith
Step-keeps_done s t (closes e) h = subst (λ x. x.done ≡ true) (closed_of s t e).1 refl
Step-keeps_done s t cancels h = h

Steps-keep_done : (s t : Supervisor) → Steps s t → s.done ≡ true → t.done ≡ true
Steps-keep_done s t stay h = h
Steps-keep_done s u (further {t = t} steps last) h =
    Step-keeps_done t u last (Steps-keep_done s t steps h)

-- When Shutdown returns nil, no goroutine of an accepted task is still running, and whatever happens
-- after that none runs and Go accepts no task.
pub shutdown_drains :
    (parent_canceled expired : Bool) (s : Supervisor)
    → Steps (new_supervisor parent_canceled) s
    → Returns s expired true
    → (u : Supervisor) → Steps s u
    → (u.running ≡ 0) × ((go u).1 ≡ false)
unfolding go
shutdown_drains parent_canceled expired s before (returns_nil closed) u after =
    let v = Steps-IsSupervisor s u after (
      Steps-IsSupervisor (new_supervisor parent_canceled) s before
        (new_supervisor-IsSupervisor parent_canceled)) in
    let closed' = Steps-keep_done s u after closed in
    (sym v.counted ∙ v.done_drained closed', ground (arith, v.done_stopped closed'))

-- Goroutines that end one by one.
end_all :
    (n : ℕ) (s t : Supervisor)
    → Steps s t
    → t.running ≡ n
    → t.tasks ≡ n
    → Steps s (record t { tasks = 0; running = 0 })
unfolding task_ends
end_all zero s t steps h k =
    subst (λ (x : Supervisor). Steps s x)
      (ap (λ i. record t { running = i }) h ∙ ap (λ i. record t { tasks = i; running = 0 }) k) steps
end_all (suc n) s t steps h k =
    let ended : task_ends t ≡ some (record t { tasks = n; running = n }) =
      ap (λ i. end_one i t) h ∙ ap (λ i. count_down i (record t { running = n })) k in
    end_all n s (record t { tasks = n; running = n }) (further steps (ends ended)) refl refl

-- A supervisor that stops is never stuck: when its tasks end, the channel is closed, and then
-- Shutdown can return nil.
pub shutdown_completes :
    (parent_canceled : Bool) (s : Supervisor)
    → Steps (new_supervisor parent_canceled) s
    → s.stopping ≡ true
    → (t : Supervisor) × Steps s t × Returns t false true
unfolding waiter_closes
shutdown_completes parent_canceled s before h =
    let v =
      Steps-IsSupervisor (new_supervisor parent_canceled) s before
        (new_supervisor-IsSupervisor parent_canceled) in
    let drained : Supervisor = record s { tasks = 0; running = 0 } in
    let once_set : s.once ≡ true = v.stops_once ∙ h in
    (
      record drained { done = true },
      further (end_all s.running s s stay refl v.counted) (closes (ground (arith, once_set))),
      returns_nil refl,
    )
