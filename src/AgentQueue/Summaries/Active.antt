-- ===== src/AgentQueue/Summaries/Active.antt =====
-- What the loop over the active commands adds to the summary of a node (activeQueueSummaries in
-- server/internal/repository/agent_command_repository.go).
use backup_x.Base.{
  ℕ, ◌+◌, ◌≡◌, refl, ◌∙◌, ap, inl, inr, Bool, true, ◌&&◌, List, [], ◌∷◌, Option, none, some, arith,
  ◌==◌, length, filter, Bool-cases, ==_iff,
}
use backup_x.AgentQueue.{AgentCommand, Queue, is_active, is_pending, is_dispatched, is_active_of}
use backup_x.AgentQueue.Summaries.{
  AgentCommandQueueSummary, Summaries, find_summary, summary_or, is_long_running, add_by_status,
  add_command, add_active, insert_by_node, sort_by_node, active_queue_summaries,
}

abbrev of_node : ℕ → AgentCommand → Bool
of_node a c = c.node_id == a

-- The loop on the commands of one node, from an entry of the map.
pub add_all : List AgentCommand → Option AgentCommandQueueSummary → Option AgentCommandQueueSummary
add_all [] s = s
add_all (c ∷ cs) s = add_all cs (some (add_command c (summary_or s)))

add_active-node :
    (a : ℕ) (cs : List AgentCommand) (m : Summaries)
    → find_summary a (add_active cs m) ≡ add_all (filter (of_node a) cs) (find_summary a m)
unfolding add_active add_all find_summary
add_active-node a [] m = refl
add_active-node a (c ∷ cs) m = elim (Bool-cases (c.node_id == a)) [
  | inl e ↦
      let later =
        add_active-node a cs
          ((c.node_id, add_command c (summary_or (find_summary c.node_id m))) ∷ m) in
      later ∙ rw (e, (==_iff c.node_id a).0 e) refl
  | inr e ↦
      let later =
        add_active-node a cs
          ((c.node_id, add_command c (summary_or (find_summary c.node_id m))) ∷ m) in
      later ∙ rw e refl
]

insert_by_node-node :
    (a : ℕ) (c : AgentCommand) (cs : List AgentCommand)
    → filter (of_node a) (insert_by_node c cs) ≡ filter (of_node a) (c ∷ cs)
unfolding insert_by_node
insert_by_node-node a c [] = refl
insert_by_node-node a c (d ∷ cs) = ground (arith, insert_by_node-node a c cs)

sort_by_node-node :
    (a : ℕ) (cs : List AgentCommand) → filter (of_node a) (sort_by_node cs) ≡ filter (of_node a) cs
unfolding sort_by_node
sort_by_node-node a [] = refl
sort_by_node-node a (c ∷ cs) =
    insert_by_node-node a c (sort_by_node cs) ∙ ground (arith, sort_by_node-node a cs)

filter-filter :
    (a : ℕ) (cs : List AgentCommand)
    → filter (of_node a) (filter (λ c. is_active c.status) cs) ≡ filter (is_active_of a) cs
unfolding is_active_of
filter-filter a [] = refl
filter-filter a (c ∷ cs) = ground (arith, filter-filter a cs)

abbrev pub count : (AgentCommand → Bool) → List AgentCommand → ℕ
count test cs = length (filter test cs)

abbrev pub works_long : AgentCommand → Bool
works_long c = is_dispatched c.status && is_long_running c.type

-- The numbers of `t` are those of `s` and of the commands together.
pub record Adds (cs : List AgentCommand) (s t : AgentCommandQueueSummary) : Type 0 where
  pub more_pending : t.pending ≡ s.pending + count (λ c. is_pending c.status) cs
  pub more_dispatched : t.dispatched ≡ s.dispatched + count (λ c. is_dispatched c.status) cs
  pub more_running : t.running ≡ s.running + count works_long cs
  pub more_depth : t.depth ≡ s.depth + length cs

add_command-Adds :
    (c : AgentCommand) (s : AgentCommandQueueSummary)
    → is_active c.status ≡ true
    → Adds (c ∷ []) s (add_command c s)
unfolding add_command add_by_status
add_command-Adds c s h = record {
  more_pending = ground (arith, h);
  more_dispatched = ground (arith, h);
  more_running = ground (arith, h);
  more_depth = ground (arith, h);
}

Adds-trans :
    (c : AgentCommand) (cs : List AgentCommand) (s t u : AgentCommandQueueSummary)
    → Adds (c ∷ []) s t
    → Adds cs t u
    → Adds (c ∷ cs) s u
Adds-trans c cs s t u v w = record {
  more_pending = ground (arith, v.more_pending, w.more_pending);
  more_dispatched = ground (arith, v.more_dispatched, w.more_dispatched);
  more_running = ground (arith, v.more_running, w.more_running);
  more_depth = ground (arith, v.more_depth, w.more_depth);
}

active_of-active : (a : ℕ) (c : AgentCommand) → is_active_of a c ≡ true → is_active c.status ≡ true
unfolding is_active_of
active_of-active a c h = ground (arith, h)

pub add_all-Adds :
    (a : ℕ) (cs : List AgentCommand) (s : Option AgentCommandQueueSummary)
    → Adds
        (filter (is_active_of a) cs)
        (summary_or s)
        (summary_or (add_all (filter (is_active_of a) cs) s))
unfolding add_all summary_or
add_all-Adds a [] s = record {
  more_pending = omega arith;
  more_dispatched = omega arith;
  more_running = omega arith;
  more_depth = omega arith;
}
add_all-Adds a (c ∷ cs) s = elim (Bool-cases (is_active_of a c)) [
  | inl e ↦ rw e (
      Adds-trans c (filter (is_active_of a) cs) (summary_or s) (add_command c (summary_or s))
        (summary_or (add_all (filter (is_active_of a) cs) (some (add_command c (summary_or s)))))
        (add_command-Adds c (summary_or s) (active_of-active a c e))
        (add_all-Adds a cs (some (add_command c (summary_or s)))))
  | inr e ↦ rw e (add_all-Adds a cs s)
]

pub active_queue_summaries-node :
    (a : ℕ) (q : Queue)
    → find_summary a (active_queue_summaries q) ≡ add_all (filter (is_active_of a) q.rows) none
unfolding active_queue_summaries find_summary
active_queue_summaries-node a q =
    add_active-node a (sort_by_node (filter (λ c. is_active c.status) q.rows)) []
    ∙ ap (λ cs. add_all cs none)
        (sort_by_node-node a (filter (λ c. is_active c.status) q.rows) ∙ filter-filter a q.rows)
