-- ===== src/ClusterVersion.antt =====
-- The monitor of the versions of the agents (server/internal/service/cluster_version.go).
--
-- The time and the reset interval count nanoseconds. An int of 64 bits is its two's complement.
-- The timer of Start is not modelled: a run is a list of scans, each with what it reads.
pub mod Order
pub mod Throttle
mod Tests
use backup_x.Base.{
  ℕ, ◌+◌, ◌-◌, ◌*◌, ◌^◌, ◌%◌, Bool, true, false, ◌&&◌, ◌||◌, not, List, [], ◌∷◌, ◌++◌, map, Option,
  none, some, ltb, leb, ◌==◌, if◌then◌else◌, filter, contains,
}
use backup_x.Base.Text.{Text, codes, text_eq, trim_space, cut_prefix, split_on}

abbrev pub word : ℕ
word = 18446744073709551616

abbrev pub sign_bit : ℕ
sign_bit = 9223372036854775808

-- `a < b` on two's complements.
pub signed_lt : ℕ → ℕ → Bool
signed_lt a b = ltb ((a + sign_bit) % word) ((b + sign_bit) % word)

-- The loop of atoi behind the digits so far.
pub atoi_from : ℕ → Text → Option ℕ
atoi_from n [] = some n
atoi_from n (r ∷ s) =
    let rest = atoi_from ((n * 10 + (r - b'0')) % word) s in
    if ltb r b'0' || ltb b'9' r then none else rest

pub atoi : Text → Option ℕ
atoi s = atoi_from 0 s

abbrev pub pair_of : Option ℕ → Option ℕ → Option (ℕ × ℕ)
pair_of (some major) (some minor) = some (major, minor)
pair_of _ _ = none

-- splitMajorMinor on the parts.
pub split_parts : List Text → Option (ℕ × ℕ)
split_parts [] = none
split_parts (p ∷ []) = none
split_parts (p ∷ q ∷ parts) = pair_of (atoi p) (atoi q)

pub split_major_minor : Text → Option (ℕ × ℕ)
split_major_minor v = split_parts (split_on b'.' v)

-- strings.TrimPrefix(strings.TrimSpace(v), "v").
pub bare_version : Text → Text
bare_version v = elim (cut_prefix (codes "v") (trim_space v)) [
  | none ↦ trim_space v
  | some rest ↦ rest
]

pub is_unversioned : Text → Bool
is_unversioned v = text_eq v [] || text_eq v (codes "dev")

-- The comparison of the major and the minor numbers.
pub is_older : ℕ × ℕ → ℕ × ℕ → Bool
is_older (major, minor) (major', minor') =
    if signed_lt major major' then true else (major == major') && signed_lt minor minor'

pub is_older_opt : Option (ℕ × ℕ) → Option (ℕ × ℕ) → Bool
is_older_opt (some a) (some m) = is_older a m
is_older_opt _ _ = false

pub is_version_outdated : Text → Text → Bool
is_version_outdated agent master =
    let a = bare_version agent in
    let m = bare_version master in
    if is_unversioned a || is_unversioned m
    then false
    else is_older_opt (split_major_minor a) (split_major_minor m)

pub record Node : Type 0 where
  pub id : ℕ
  pub name : Text
  pub agent_ver : Text
  pub is_local : Bool

pub record Event : Type 0 where
  pub node_id : ℕ
  pub node_name : Text
  pub agent_version : Text
  pub master_version : Text
  pub title : Text
  pub body : Text

-- The map `notified`.
abbrev pub Notified : Type 0
Notified = List (ℕ × ℕ)

pub last_of : ℕ → Notified → Option ℕ
last_of id [] = none
last_of id ((k, t) ∷ notified) = let rest = last_of id notified in if k == id then some t else rest

pub forget : ℕ → Notified → Notified
forget id notified = filter (λ e. not (e.0 == id)) notified

pub remember : ℕ → ℕ → Notified → Notified
remember id now notified = (id, now) ∷ forget id notified

pub record Monitor : Type 0 where
  pub has_dispatcher : Bool
  pub master_version : Text

pub event_of : Monitor → Node → Event
event_of m node = record {
  node_id = node.id;
  node_name = node.name;
  agent_version = node.agent_ver;
  master_version = m.master_version;
  title = codes "BackupX Agent 版本落后";
  body =
      codes "节点："
      ++ (node.name
          ++ (codes "\nAgent 版本："
              ++ (node.agent_ver
                  ++ (codes "\nMaster 版本："
                      ++ (m.master_version ++ codes "\n建议升级 Agent 以获得完整兼容性。")))));
}

abbrev pub within : ℕ → ℕ → Option ℕ → Bool
within now reset none = false
within now reset (some last) = ltb (now - last) reset

-- One round of the loop over the nodes.
pub scan_node : Monitor → ℕ → ℕ → Node → Notified → Notified × List Event
scan_node m reset now node notified =
    if node.is_local || text_eq (trim_space node.agent_ver) []
    then (notified, [])
    else if not (is_version_outdated node.agent_ver m.master_version)
    then (forget node.id notified, [])
    else if within now reset (last_of node.id notified)
    then (notified, [])
    else (remember node.id now notified, if m.has_dispatcher then event_of m node ∷ [] else [])

pub scan_nodes : Monitor → ℕ → ℕ → List Node → Notified → Notified × List Event
scan_nodes m reset now [] notified = (notified, [])
scan_nodes m reset now (node ∷ nodes) notified =
    let (notified', events) = scan_node m reset now node notified in
    let (notified'', more) = scan_nodes m reset now nodes notified' in (notified'', events ++ more)

abbrev pub node_ids : List Node → List ℕ
node_ids nodes = map (λ node. node.id) nodes

-- scan; none is an error of the list.
pub scan : Monitor → ℕ → ℕ → Option (List Node) → Notified → Notified × List Event
scan m reset now none notified = (notified, [])
scan m reset now (some nodes) notified =
    scan_nodes m reset now nodes (filter (λ e. contains (node_ids nodes) e.0) notified)
