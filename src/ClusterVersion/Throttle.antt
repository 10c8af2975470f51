-- ===== src/ClusterVersion/Throttle.antt =====
-- When a node that was reported is not reported again (scan in
-- server/internal/service/cluster_version.go). A scan that sees the node up to date, or not at all,
-- forgets it, and then the reset interval does not count.
use backup_x.Base.{
  ℕ, ◌-◌, ◌≡◌, refl, ◌∙◌, sym, subst, ◌⊎◌, inl, inr, true, false, ◌||◌, ◌&&◌, not, Bool, All,
  Option, List, [], ◌∷◌, ◌++◌, map, none, some, arith, ltb, ◌==◌, if◌then◌else◌, filter, contains,
  Bool-cases, ==_iff,
}
use backup_x.Base.Text.{text_eq, trim_space}
use backup_x.ClusterVersion.{
  Node, Event, Notified, Monitor, last_of, forget, remember, event_of, within, scan_node,
  scan_nodes, scan, node_ids, is_version_outdated,
}

-- No id twice.
abbrev pub Distinct : List ℕ → Type 0
Distinct [] = Unit
Distinct (a ∷ rest) = (contains rest a ≡ false) × Distinct rest

abbrev pub reported : List Event → List ℕ
reported events = map (λ event. event.node_id) events

reported-append :
    (a : ℕ) (events more : List Event)
    → contains (reported (events ++ more)) a
      ≡ contains (reported events) a || contains (reported more) a
reported-append a [] more = refl
reported-append a (e ∷ events) more = ground (arith, reported-append a events more)

last_of-forget :
    (a id : ℕ) (n : Notified) → last_of a (forget id n) ≡ (if id == a then none else last_of a n)
unfolding last_of forget
last_of-forget a id [] = ground arith
last_of-forget a id ((k, t) ∷ n) = ground (arith, last_of-forget a id n)

last_of-remember :
    (a id now : ℕ) (n : Notified)
    → last_of a (remember id now n) ≡ (if id == a then some now else last_of a n)
unfolding last_of remember
last_of-remember a id now n = ground (arith, last_of-forget a id n)

last_of-filter :
    (a : ℕ) (keep : List ℕ) (n : Notified)
    → contains keep a ≡ true
    → last_of a (filter (λ e. contains keep e.0) n) ≡ last_of a n
unfolding last_of
last_of-filter a keep [] h = refl
last_of-filter a keep ((k, t) ∷ n) h = elim (Bool-cases (k == a)) [
  | inl e ↦ let kept : contains keep k ≡ true = rw ((==_iff k a).0 e) h in rw (kept, e) refl
  | inr e ↦ ground (arith, last_of-filter a keep n h)
]

module _ (m : Monitor) (reset now : ℕ) where
  -- What one node changes: nothing for the others; and it is reported only with `now` noted.
  scan_node-cases :
      (node : Node) (n : Notified)
      → ((a : ℕ)
          → (node.id == a) ≡ false
          → last_of a (scan_node m reset now node n).0 ≡ last_of a n)
        × ((reported (scan_node m reset now node n).1 ≡ [])
            ⊎ ((reported (scan_node m reset now node n).1 ≡ node.id ∷ [])
                × (last_of node.id (scan_node m reset now node n).0 ≡ some now)
                × (within now reset (last_of node.id n) ≡ false)))
  unfolding scan_node event_of
  scan_node-cases node n =
      elim (Bool-cases (node.is_local || text_eq (trim_space node.agent_ver) [])) [
        | inl e ↦ rw (e, scan_node) (λ a h. refl, inl refl)
        | inr e ↦ elim (Bool-cases (is_version_outdated node.agent_ver m.master_version)) [
          | inr f ↦
              rw (e, f, scan_node) (λ a h. ground (arith, last_of-forget a node.id n, h), inl refl)
          | inl f ↦ elim (Bool-cases (within now reset (last_of node.id n))) [
            | inl g ↦ rw (e, f, g, scan_node) (λ a h. refl, inl refl)
            | inr g ↦ elim (Bool-cases m.has_dispatcher) [
              | inl d ↦
                  rw (e, f, g, d, scan_node)
                    (
                      λ a h. ground (arith, last_of-remember a node.id now n, h),
                      inr (refl, ground (arith, last_of-remember node.id node.id now n), refl),
                    )
              | inr d ↦
                  rw (e, f, g, d, scan_node)
                    (λ a h. ground (arith, last_of-remember a node.id now n, h), inl refl)
            ]
          ]
        ]
      ]

  scan_node_silent :
      (node : Node) (n : Notified) (a : ℕ)
      → (node.id == a) ≡ false
      → contains (reported (scan_node m reset now node n).1) a ≡ false
  scan_node_silent node n a h = elim (scan_node-cases node n).1 [
    | inl e ↦ rw e refl
    | inr (e, _, _) ↦ rw (e, h) refl
  ]

  scan_nodes-other :
      (nodes : List Node) (n : Notified) (a : ℕ)
      → contains (node_ids nodes) a ≡ false
      → (last_of a (scan_nodes m reset now nodes n).0 ≡ last_of a n)
        × (contains (reported (scan_nodes m reset now nodes n).1) a ≡ false)
  unfolding scan_nodes
  scan_nodes-other [] n a h = (refl, refl)
  scan_nodes-other (node ∷ nodes) n a h =
      let apart : (node.id == a) ≡ false = ground arith in
      let (same, silent) =
        scan_nodes-other nodes (scan_node m reset now node n).0 a (ground arith) in
      (
        same ∙ (scan_node-cases node n).0 a apart,
        rw
            (
              reported-append a (scan_node m reset now node n).1
                  (scan_nodes m reset now nodes (scan_node m reset now node n).0).1,
              scan_node_silent node n a apart,
            )
            silent,
      )

  -- A node that is reported is noted with the time of the scan.
  scan_nodes_notes :
      (nodes : List Node) (n : Notified) (a : ℕ)
      → Distinct (node_ids nodes)
      → contains (reported (scan_nodes m reset now nodes n).1) a ≡ true
      → last_of a (scan_nodes m reset now nodes n).0 ≡ some now
  unfolding scan_nodes
  scan_nodes_notes [] n a d h = ground arith
  scan_nodes_notes (node ∷ nodes) n a d h =
      let n' = (scan_node m reset now node n).0 in
      let events = (scan_node m reset now node n).1 in
      let both = reported-append a events (scan_nodes m reset now nodes n').1 in
      elim (Bool-cases (node.id == a)) [
        | inr e ↦
            let silent = scan_node_silent node n a e in
            scan_nodes_notes nodes n' a d.1 (rw silent at (sym both ∙ h))
        | inl e ↦
            let gone : contains (node_ids nodes) a ≡ false = rw ((==_iff node.id a).0 e) at d.0 in
            let (same, silent) = scan_nodes-other nodes n' a gone in
            elim (scan_node-cases node n).1 [
              | inl f ↦ let reported_here = rw (f, silent) at (sym both ∙ h) in ground arith
              | inr (f, noted, _) ↦
                  same ∙ subst (λ b. last_of b n' ≡ some now) ((==_iff node.id a).0 e) noted
            ]
      ]

  -- A node that was noted less than the reset interval ago is not reported.
  scan_nodes_throttled :
      (nodes : List Node) (n : Notified) (a last : ℕ)
      → Distinct (node_ids nodes)
      → last_of a n ≡ some last
      → ltb (now - last) reset ≡ true
      → contains (reported (scan_nodes m reset now nodes n).1) a ≡ false
  unfolding scan_nodes
  scan_nodes_throttled [] n a last d h k = refl
  scan_nodes_throttled (node ∷ nodes) n a last d h k =
      let n' = (scan_node m reset now node n).0 in
      let events = (scan_node m reset now node n).1 in
      let both = reported-append a events (scan_nodes m reset now nodes n').1 in
      elim (Bool-cases (node.id == a)) [
        | inr e ↦
            let silent = scan_node_silent node n a e in
            let kept = (scan_node-cases node n).0 a e ∙ h in
            both ∙ rw silent (scan_nodes_throttled nodes n' a last d.1 kept k)
        | inl e ↦
            let gone : contains (node_ids nodes) a ≡ false = rw ((==_iff node.id a).0 e) at d.0 in
            let (same, silent) = scan_nodes-other nodes n' a gone in
            elim (scan_node-cases node n).1 [
              | inl f ↦ both ∙ rw (f, silent) refl
              | inr (f, _, due) ↦
                  let noted : last_of node.id n ≡ some last =
                    subst (λ b. last_of b n ≡ some last) (sym ((==_iff node.id a).0 e)) h in
                  let never = rw noted at due in ground arith
            ]
      ]

-- A scan with its time and what it reads; none is an error of the list.
abbrev pub Scan : Type 0
Scan = ℕ × Option (List Node)

-- The scans of one run of the monitor.
unfoldable pub scan_all : Monitor → ℕ → List Scan → Notified → Notified × List Event
scan_all m reset [] n = (n, [])
scan_all m reset ((now, nodes) ∷ scans) n =
    let (n', events) = scan m reset now nodes n in
    let (n'', more) = scan_all m reset scans n' in (n'', events ++ more)

-- The node is not seen up to date.
unfoldable pub is_behind : Monitor → Node → Bool
is_behind m node =
    node.is_local
    || text_eq (trim_space node.agent_ver) []
    || is_version_outdated node.agent_ver m.master_version

-- What the scan reads, if it reads anything: the node `a` is there, and never up to date.
abbrev pub KeepsBehind : Monitor → ℕ → Option (List Node) → Type 0
KeepsBehind m a none = Unit
KeepsBehind m a (some nodes) =
    (contains (node_ids nodes) a ≡ true)
    × All (λ (node : Node). ((node.id == a) && not (is_behind m node)) ≡ false) nodes

abbrev pub HasDistinct : Option (List Node) → Type 0
HasDistinct none = Unit
HasDistinct (some nodes) = Distinct (node_ids nodes)

module _ (m : Monitor) (reset now : ℕ) where
  -- A node that was noted shortly before and is behind stays noted with the same time.
  scan_node_stays :
      (node : Node) (n : Notified) (a last : ℕ)
      → last_of a n ≡ some last
      → ltb (now - last) reset ≡ true
      → ((node.id == a) && not (is_behind m node)) ≡ false
      → last_of a (scan_node m reset now node n).0 ≡ some last
  unfolding is_behind scan_node
  scan_node_stays node n a last noted soon behind = elim (Bool-cases (node.id == a)) [
    | inr other ↦ (scan_node-cases m reset now node n).0 a other ∙ noted
    | inl own ↦
        let here : last_of node.id n ≡ some last =
          subst (λ b. last_of b n ≡ some last) (sym ((==_iff node.id a).0 own)) noted in
        ground (arith, noted, here, own, behind, soon)
  ]

  scan_nodes_stay :
      (nodes : List Node) (n : Notified) (a last : ℕ)
      → last_of a n ≡ some last
      → ltb (now - last) reset ≡ true
      → All (λ (node : Node). ((node.id == a) && not (is_behind m node)) ≡ false) nodes
      → last_of a (scan_nodes m reset now nodes n).0 ≡ some last
  unfolding scan_nodes
  scan_nodes_stay [] n a last noted soon behind = noted
  scan_nodes_stay (node ∷ nodes) n a last noted soon behind =
      scan_nodes_stay nodes (scan_node m reset now node n).0 a last
        (scan_node_stays node n a last noted soon behind.0) soon behind.1

  scan_stays :
      (nodes : Option (List Node)) (n : Notified) (a last : ℕ)
      → last_of a n ≡ some last
      → ltb (now - last) reset ≡ true
      → KeepsBehind m a nodes
      → last_of a (scan m reset now nodes n).0 ≡ some last
  unfolding scan
  scan_stays none n a last noted soon behind = noted
  scan_stays (some nodes) n a last noted soon behind =
      scan_nodes_stay nodes (filter (λ e. contains (node_ids nodes) e.0) n) a last
        (last_of-filter a (node_ids nodes) n behind.0 ∙ noted) soon behind.1

  -- A scan less than the reset interval after the time that is noted does not report the node.
  scan_silent :
      (nodes : Option (List Node)) (n : Notified) (a last : ℕ)
      → HasDistinct nodes
      → last_of a n ≡ some last
      → ltb (now - last) reset ≡ true
      → contains (reported (scan m reset now nodes n).1) a ≡ false
  unfolding scan
  scan_silent none n a last d noted soon = refl
  scan_silent (some nodes) n a last d noted soon =
      let kept = filter (λ e. contains (node_ids nodes) e.0) n in
      elim (Bool-cases (contains (node_ids nodes) a)) [
        | inl e ↦
            scan_nodes_throttled m reset now nodes kept a last d
              (last_of-filter a (node_ids nodes) n e ∙ noted) soon
        | inr e ↦ (scan_nodes-other m reset now nodes kept a e).1
      ]

scan_all_silent :
    (m : Monitor) (reset : ℕ) (scans : List Scan) (n : Notified) (a last : ℕ)
    → All (λ (s : Scan). HasDistinct s.1) scans
    → All (λ (s : Scan). ltb (s.0 - last) reset ≡ true) scans
    → All (λ (s : Scan). KeepsBehind m a s.1) scans
    → last_of a n ≡ some last
    → (last_of a (scan_all m reset scans n).0 ≡ some last)
      × (contains (reported (scan_all m reset scans n).1) a ≡ false)
unfolding scan_all
scan_all_silent m reset [] n a last d soon behind noted = (noted, refl)
scan_all_silent m reset ((now, nodes) ∷ scans) n a last d soon behind noted =
    let stays = scan_stays m reset now nodes n a last noted soon.0 behind.0 in
    let quiet = scan_silent m reset now nodes n a last d.0 noted soon.0 in
    let (kept, rest) =
      scan_all_silent m reset scans (scan m reset now nodes n).0 a last d.1 soon.1 behind.1 stays in
    (
      kept,
      reported-append a (scan m reset now nodes n).1
            (scan_all m reset scans (scan m reset now nodes n).0).1
          ∙ rw (quiet, rest) refl,
    )

-- After a scan that reports a node, the scans that start within the reset interval of it do not
-- report it again, as long as every scan before the last of them fails to read the nodes or reads
-- the node, and not up to date; the last scan may read anything. A list of nodes has no id twice.
pub scan_throttles :
    (m : Monitor) (reset now now' : ℕ) (nodes : List Node) (nodes' : Option (List Node))
    (between : List Scan) (n : Notified) (a : ℕ)
    → Distinct (node_ids nodes)
    → All (λ (s : Scan). HasDistinct s.1) between
    → HasDistinct nodes'
    → contains (reported (scan m reset now (some nodes) n).1) a ≡ true
    → All (λ (s : Scan). ltb (s.0 - now) reset ≡ true) between
    → ltb (now' - now) reset ≡ true
    → All (λ (s : Scan). KeepsBehind m a s.1) between
    → let after = scan_all m reset between (scan m reset now (some nodes) n).0 in
      (contains (reported after.1) a ≡ false)
      × (contains (reported (scan m reset now' nodes' after.0).1) a ≡ false)
unfolding scan
scan_throttles m reset now now' nodes nodes' between n a d ds d' first soon soon' behind =
    let kept = filter (λ e. contains (node_ids nodes) e.0) n in
    let noted = scan_nodes_notes m reset now nodes kept a d first in
    let (stays, quiet) =
      scan_all_silent m reset between (scan_nodes m reset now nodes kept).0 a now ds soon behind
        noted in
    (
      quiet,
      scan_silent m reset now' nodes'
          (scan_all m reset between (scan_nodes m reset now nodes kept).0).0 a now d' stays soon',
    )
