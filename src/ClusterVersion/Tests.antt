-- ===== src/ClusterVersion/Tests.antt =====
-- Scans of a small cluster (server/internal/service/cluster_version.go).
use backup_x.Base.{◌≡◌, refl, true, false, List, [], ◌∷◌, none, some, contains, All, arith}
use backup_x.Base.Text.{codes, text_eq, trim_space, cut_prefix, split_on}
use backup_x.ClusterVersion.{
  signed_lt, atoi_from, atoi, split_parts, split_major_minor, bare_version, is_unversioned,
  is_older, is_older_opt, is_version_outdated, Node, Monitor, last_of, forget, remember, event_of,
  scan_node, scan_nodes, scan,
}
use backup_x.ClusterVersion.Throttle.{
  reported, Scan, scan_all, is_behind, KeepsBehind, scan_throttles,
}
use backup_x.ClusterVersion.Order.{Version, IsVersion, print, value_from, is_version_outdated-print}

abbrev monitor : Monitor
monitor = record { has_dispatcher = true; master_version = codes "v1.10.0" }

abbrev nodes : List Node
nodes =
    record { id = 1; name = codes "local"; agent_ver = codes "v1.2.0"; is_local = true }
    ∷ record { id = 2; name = codes "old"; agent_ver = codes "v1.9.3"; is_local = false }
    ∷ record { id = 3; name = codes "new"; agent_ver = codes " v1.10.7"; is_local = false }
    ∷ []

-- 1.9 is behind 1.10; the patch does not count, and neither does what is no version.
versions :
    (is_version_outdated (codes "v1.9.3") (codes "1.10.0") ≡ true)
    × (is_version_outdated (codes "v1.10.0") (codes "v1.10.7") ≡ false)
    × (is_version_outdated (codes "dev") (codes "v1.10.7") ≡ false)
    × (is_version_outdated (codes "v1.x") (codes "v1.10.7") ≡ false)
unfolding is_version_outdated bare_version is_unversioned split_major_minor split_parts atoi
    atoi_from is_older is_older_opt signed_lt text_eq cut_prefix trim_space split_on
versions = (refl, refl, refl, refl)

reports_old : contains (reported (scan monitor 1000 50 (some nodes) []).1) 2 ≡ true
unfolding scan scan_nodes scan_node event_of last_of forget remember is_version_outdated
    bare_version is_unversioned split_major_minor split_parts atoi atoi_from is_older is_older_opt
    signed_lt text_eq cut_prefix trim_space split_on
reports_old = refl

-- Two scans in between, one of which cannot read the nodes.
abbrev between : List Scan
between = (300, some nodes) ∷ (500, none) ∷ []

stays_behind : All (λ (s : Scan). KeepsBehind monitor 2 s.1) between
unfolding is_behind is_version_outdated bare_version is_unversioned split_major_minor split_parts
    atoi atoi_from is_older is_older_opt signed_lt text_eq cut_prefix trim_space split_on
stays_behind = ((refl, (refl, (refl, (refl, tt)))), (tt, tt))

scan_throttles_example :
    let after = scan_all monitor 1000 between (scan monitor 1000 50 (some nodes) []).0 in
    (contains (reported after.1) 2 ≡ false)
    × (contains (reported (scan monitor 1000 900 (some nodes) after.0).1) 2 ≡ false)
scan_throttles_example =
    scan_throttles monitor 1000 50 900 nodes (some nodes) between [] 2 (refl, (refl, (refl, tt)))
      ((refl, (refl, (refl, tt))), (tt, tt)) (refl, (refl, (refl, tt))) reports_old
      (refl, (refl, tt)) refl stays_behind

abbrev upgraded : List Node
upgraded = record { id = 2; name = codes "old"; agent_ver = codes "v1.10.0"; is_local = false } ∷ []

-- A node that a scan in between sees up to date is reported again within the interval.
reported_twice :
    contains
      (reported
        (scan monitor 1000 100
          (some nodes)
          (scan monitor 1000 80 (some upgraded) (scan monitor 1000 50 (some nodes) []).0).0).1)
      2
    ≡ true
unfolding scan scan_nodes scan_node event_of last_of forget remember is_version_outdated
    bare_version is_unversioned split_major_minor split_parts atoi atoi_from is_older is_older_opt
    signed_lt text_eq cut_prefix trim_space split_on
reported_twice = refl

abbrev agent : Version
agent = record { prefixed = true; major = 1 ∷ []; minor = 9 ∷ []; patch = some (3 ∷ []) }

abbrev master : Version
master = record { prefixed = false; major = 1 ∷ []; minor = 1 ∷ 0 ∷ []; patch = none }

agent-IsVersion : IsVersion agent
unfolding value_from
agent-IsVersion = record {
  major_digits = (omega arith, tt);
  minor_digits = (omega arith, tt);
  patch_digits = (omega arith, tt);
  major_fits = omega arith;
  minor_fits = omega arith;
}

master-IsVersion : IsVersion master
unfolding value_from
master-IsVersion = record {
  major_digits = (omega arith, tt);
  minor_digits = (omega arith, (omega arith, tt));
  patch_digits = tt;
  major_fits = omega arith;
  minor_fits = omega arith;
}

is_version_outdated-print_example : is_version_outdated (codes "v1.9.3") (codes "1.10") ≡ true
unfolding print value_from
is_version_outdated-print_example =
    is_version_outdated-print agent master agent-IsVersion master-IsVersion
