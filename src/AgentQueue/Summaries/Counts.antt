-- ===== src/AgentQueue/Summaries/Counts.antt =====
-- The summary of a node counts the commands that the node has still to work on
-- (server/internal/repository/agent_command_repository.go).
use backup_x.Base.{
  ℕ, ◌+◌, ◌≡◌, refl, ◌∙◌, ap, subst, inl, inr, List, [], ◌∷◌, none, arith, ◌==◌, length, filter,
  contains, Bool-cases, ==_iff,
}
use backup_x.AgentQueue.{AgentCommand, Queue, is_pending, is_dispatched, list_pending_by_node}
use backup_x.AgentQueue.Summaries.{
  AgentCommandQueueSummary, Summaries, find_summary, summary_or, active_queue_summaries,
  node_queue_summaries, apply_terminal_queue_stats, add_timeouts, add_errors, nodes_of, timeouts_of,
  is_timeout, last_errors,
}
use backup_x.AgentQueue.Summaries.Active.{
  count, works_long, add_all-Adds, active_queue_summaries-node,
}

-- The numbers of a summary agree with the commands they are made of.
pub record Counts (cs : List AgentCommand) (s : AgentCommandQueueSummary) : Type 0 where
  pub pending_counted : s.pending ≡ count (λ c. is_pending c.status) cs
  pub dispatched_counted : s.dispatched ≡ count (λ c. is_dispatched c.status) cs
  pub running_counted : s.running ≡ count works_long cs
  pub depth_counted : s.depth ≡ length cs

-- Two summaries with the same numbers of active commands.
record SameCounts (s t : AgentCommandQueueSummary) : Type 0 where
  same_pending : t.pending ≡ s.pending
  same_dispatched : t.dispatched ≡ s.dispatched
  same_running : t.running ≡ s.running
  same_depth : t.depth ≡ s.depth

SameCounts-trans :
    (s t u : AgentCommandQueueSummary) → SameCounts s t → SameCounts t u → SameCounts s u
SameCounts-trans s t u v w = record {
  same_pending = w.same_pending ∙ v.same_pending;
  same_dispatched = w.same_dispatched ∙ v.same_dispatched;
  same_running = w.same_running ∙ v.same_running;
  same_depth = w.same_depth ∙ v.same_depth;
}

SameCounts-refl : (s : AgentCommandQueueSummary) → SameCounts s s
SameCounts-refl s = record {
  same_pending = refl;
  same_dispatched = refl;
  same_running = refl;
  same_depth = refl;
}

-- A new entry with the counts of the old one.
entry-SameCounts :
    (a node : ℕ) (s : AgentCommandQueueSummary) (m : Summaries)
    → SameCounts (summary_or (find_summary node m)) s
    → SameCounts (summary_or (find_summary a m)) (summary_or (find_summary a ((node, s) ∷ m)))
unfolding find_summary summary_or
entry-SameCounts a node s m v = elim (Bool-cases (node == a)) [
  | inl e ↦ rw e (subst (λ b. SameCounts (summary_or (find_summary b m)) s) ((==_iff node a).0 e) v)
  | inr e ↦ rw e (SameCounts-refl (summary_or (find_summary a m)))
]

add_timeouts-SameCounts :
    (a : ℕ) (rows : List AgentCommand) (nodes : List ℕ) (m : Summaries)
    → SameCounts
        (summary_or (find_summary a m))
        (summary_or (find_summary a (add_timeouts rows nodes m)))
unfolding add_timeouts
add_timeouts-SameCounts a rows [] m = SameCounts-refl (summary_or (find_summary a m))
add_timeouts-SameCounts a rows (node ∷ nodes) m =
    let old = summary_or (find_summary node m) in
    let s : AgentCommandQueueSummary = record old {
      node_id = node;
      timeouts = timeouts_of node rows;
    } in
    SameCounts-trans (summary_or (find_summary a m)) (summary_or (find_summary a ((node, s) ∷ m)))
      (summary_or (find_summary a (add_timeouts rows nodes ((node, s) ∷ m))))
      (entry-SameCounts a node s m (record {
        same_pending = refl;
        same_dispatched = refl;
        same_running = refl;
        same_depth = refl;
      }))
      (add_timeouts-SameCounts a rows nodes ((node, s) ∷ m))

add_errors-SameCounts :
    (a : ℕ) (seen : List ℕ) (cs : List AgentCommand) (m : Summaries)
    → SameCounts
        (summary_or (find_summary a m))
        (summary_or (find_summary a (add_errors seen cs m)))
unfolding add_errors
add_errors-SameCounts a seen [] m = SameCounts-refl (summary_or (find_summary a m))
add_errors-SameCounts a seen (c ∷ cs) m =
    let old = summary_or (find_summary c.node_id m) in
    let s : AgentCommandQueueSummary = record old {
      node_id = c.node_id;
      last_error = c.error_message;
    } in
    elim (Bool-cases (contains seen c.node_id)) [
      | inl e ↦ rw e (add_errors-SameCounts a seen cs m)
      | inr e ↦ rw e (
          SameCounts-trans (summary_or (find_summary a m))
            (summary_or (find_summary a ((c.node_id, s) ∷ m)))
            (summary_or (find_summary a (add_errors (c.node_id ∷ seen) cs ((c.node_id, s) ∷ m))))
            (entry-SameCounts a c.node_id s m (record {
              same_pending = refl;
              same_dispatched = refl;
              same_running = refl;
              same_depth = refl;
            }))
            (add_errors-SameCounts a (c.node_id ∷ seen) cs ((c.node_id, s) ∷ m)))
    ]

from_zero : (n : ℕ) → 0 + n ≡ n
from_zero n = omega arith

-- The summary of a node counts the pending commands, the dispatched ones, the long-running ones of
-- these, and all of them together among those that the list of the node's pending and dispatched
-- commands has; a node without a summary has none.
pub node_queue_summaries-Counts :
    (a : ℕ) (q : Queue)
    → Counts (list_pending_by_node a q) (summary_or (find_summary a (node_queue_summaries q)))
unfolding node_queue_summaries apply_terminal_queue_stats list_pending_by_node summary_or
node_queue_summaries-Counts a q =
    let active = active_queue_summaries q in
    let timed = add_timeouts q.rows (nodes_of (filter (λ c. is_timeout c.status) q.rows)) active in
    let adds = add_all-Adds a q.rows none in
    let here = active_queue_summaries-node a q in
    let same =
      SameCounts-trans (summary_or (find_summary a active)) (summary_or (find_summary a timed))
        (summary_or (find_summary a (add_errors [] (last_errors q.rows) timed)))
        (add_timeouts-SameCounts a q.rows (nodes_of (filter (λ c. is_timeout c.status) q.rows))
          active)
        (add_errors-SameCounts a [] (last_errors q.rows) timed) in
    record {
      pending_counted =
          same.same_pending
          ∙ ap (λ o. (summary_or o).pending) here
          ∙ adds.more_pending
          ∙ from_zero _;
      dispatched_counted =
          same.same_dispatched
          ∙ ap (λ o. (summary_or o).dispatched) here
          ∙ adds.more_dispatched
          ∙ from_zero _;
      running_counted =
          same.same_running
          ∙ ap (λ o. (summary_or o).running) here
          ∙ adds.more_running
          ∙ from_zero _;
      depth_counted =
          same.same_depth ∙ ap (λ o. (summary_or o).depth) here ∙ adds.more_depth ∙ from_zero _;
    }
