-- ===== src/AgentQueue/Claim.antt =====
-- What a claim hands out, and the race between a report and a timeout
-- (server/internal/repository/agent_command_repository.go).
use backup_x.Base.{
  ℕ, ◌≤◌, ◌≡◌, ◌≢◌, refl, ◌∙◌, sym, ap, subst, inl, inr, true, false, List, Option, some, arith,
  ◌==◌, All, Bool-cases, Option-cases,
}
use backup_x.AgentQueue.{
  AgentCommand, Queue, pending, dispatched, update_where, first_where, find_by_id, claim_pending,
  is_claimable, is_still_pending, dispatch_row,
}
use backup_x.AgentQueue.Rows.{
  IsQueue, update-IsQueue, find_by_id_found, first_where_passes, first_where_least,
  find_by_id-update, find_by_id_has_id,
}
use backup_x.AgentQueue.Transitions.{Operation, run, Ends, run-Follows, run-IsQueue}

-- The command that a claim makes of a row.
abbrev pub claimed : ℕ → AgentCommand → AgentCommand
claimed now item = record item { status = dispatched; dispatched_at = some now }

some_eq : {a b : AgentCommand} → some a ≡ some b → a ≡ b
some_eq h = cc

claim_pending-some :
    (node now : ℕ) (q q' : Queue) (c : AgentCommand)
    → claim_pending node now q ≡ (q', some c)
    → (item : AgentCommand) × (first_where (is_claimable node) q.rows ≡ some item)
      × (q' ≡ record q {
        rows = (update_where (is_still_pending item.id) (dispatch_row now) q.rows).0;
      })
      × (c ≡ claimed now item)
unfolding claim_pending
claim_pending-some node now q q' c h =
    elim (Option-cases (first_where (is_claimable node) q.rows)) [
      | inl e ↦ absurd (cc (rw (e, claim_pending) at h))
      | inr (item, e) ↦
          elim (Bool-cases
            ((update_where (is_still_pending item.id) (dispatch_row now) q.rows).1 == 0)) [
              | inl f ↦ absurd (cc (rw f at (rw (e, claim_pending) at h)))
              | inr f ↦
                  let h' = rw f at (rw (e, claim_pending) at h) in
                  (
                    item,
                    e,
                    sym (ap (λ (p : Queue × Option AgentCommand). p.0) h'),
                    sym (some_eq (ap (λ (p : Queue × Option AgentCommand). p.1) h')),
                  )
            ]
    ]

claimable :
    (node : ℕ) (c : AgentCommand)
    → is_claimable node c ≡ true
    → (c.node_id ≡ node) × (c.status ≡ pending)
unfolding is_claimable
claimable node c h = ground arith

still_self : (c : AgentCommand) → c.status ≡ pending → is_still_pending c.id c ≡ true
unfolding is_still_pending
still_self c h = ground arith

still_other : (a b : ℕ) (c : AgentCommand) → c.id ≡ b → b ≢ a → is_still_pending a c ≡ false
unfolding is_still_pending
still_other a b c h other = ground arith

least_claimable :
    (node : ℕ) (q : Queue) (item x : AgentCommand) (b : ℕ)
    → IsQueue q
    → first_where (is_claimable node) q.rows ≡ some item
    → find_by_id b q ≡ some x
    → is_claimable node x ≡ true
    → item.id ≤ b
unfolding find_by_id
least_claimable node q item x b v first k t =
    first_where_least (is_claimable node) q.rows item x b v.ascending first k t

module _ (node now : ℕ) (q q' : Queue) (c : AgentCommand) (v : IsQueue q)
    (claim : claim_pending node now q ≡ (q', some c)) where
  -- A claim hands out the node's pending command of the least id, marked as dispatched now, and
  -- changes the row of that command alone, to dispatched now.
  pub claim_pending_first :
      (item : AgentCommand) × (find_by_id item.id q ≡ some item)
      × (item.node_id ≡ node)
      × (item.status ≡ pending)
      × ((b : ℕ) (x : AgentCommand)
          → find_by_id b q ≡ some x
          → is_claimable node x ≡ true
          → item.id ≤ b)
      × (c ≡ claimed now item)
      × (find_by_id item.id q' ≡ some (dispatch_row now item))
      × ((b : ℕ) (x : AgentCommand)
          → b ≢ item.id
          → find_by_id b q ≡ some x
          → find_by_id b q' ≡ some x)
  claim_pending_first =
      let (item, first, after, same) = claim_pending-some node now q q' c claim in
      let found = find_by_id_found (is_claimable node) q item v first in
      let passes = first_where_passes (is_claimable node) q.rows item first in
      let row = λ (b : ℕ) (x : AgentCommand) (k : find_by_id b q ≡ some x).
        find_by_id-update (is_still_pending item.id) (dispatch_row now) q b x
          (unfold dispatch_row in λ _. refl) k in
      (
        item,
        found,
        (claimable node item passes).0,
        (claimable node item passes).1,
        λ b x k t. least_claimable node q item x b v first k t,
        same,
        subst (λ z. find_by_id item.id z ≡ some (dispatch_row now item)) (sym after)
            (rw (still_self item (claimable node item passes).1) at (row item.id item found)),
        λ b x other k.
            subst (λ z. find_by_id b z ≡ some x) (sym after)
              (rw (still_other item.id b x (find_by_id_has_id b q x k) other) at (row b x k)),
      )

-- A command is handed out once: what a later claim hands out, after any operations, is another.
pub claim_pending_once :
    (node now node' now' : ℕ) (q q1 q2 : Queue) (c c' : AgentCommand) (ops : List (ℕ × Operation))
    → IsQueue q
    → All Ends ops
    → claim_pending node now q ≡ (q1, some c)
    → claim_pending node' now' (run q1 ops) ≡ (q2, some c')
    → c'.id ≢ c.id
unfolding dispatch_row
claim_pending_once node now node' now' q q1 q2 c c' ops v ends claim claim' e =
    let (item, found, at_node, is_new, least, same, taken, others) =
      claim_pending_first node now q q1 c v claim in
    let v1 : IsQueue q1 =
      rw (claim_pending-some node now q q1 c claim).2
        (update-IsQueue (is_still_pending _) (dispatch_row now) q (λ _. refl) v) in
    let (item', found', at_node', is_new', least', same', taken', others') =
      claim_pending_first node' now' (run q1 ops) q2 c' (run-IsQueue q1 ops v1) claim' in
    let (row, kept, further, frozen) =
      run-Follows q1 ops item.id (dispatch_row now item) ends taken in
    let ids : item'.id ≡ item.id =
      omega
        (arith, e, ap (λ (x : AgentCommand). x.id) same, ap (λ (x : AgentCommand). x.id) same') in
    let row_is : row ≡ item' = some_eq (sym kept ∙ (rw ids at found')) in ground arith
