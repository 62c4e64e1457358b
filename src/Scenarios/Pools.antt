-- ===== src/Scenarios/Pools.antt =====
-- The theorems on the settings of pools, at one replicated pool and its rule.
use ceph_exporter.Base.{
  ◌≡◌, refl, none, some, List, [], ◌∷◌, pos, lookup, int_eq, strings_eq, string_eq,
}
use mathlib.Core.Option
use ceph_exporter.Json.{Json, str, num, find, same_key, get, items}
use ceph_exporter.Conn.{Conn}
use ceph_exporter.Version.Decimal.{atoi}
use ceph_exporter.PoolInfo.{actual_size, PoolInfo, pools_reply, collect, Vecs}
use ceph_exporter.PoolInfo.Laws.{latest, collect-latest}
use ceph_exporter.PoolInfo.Rules.{
  Rule, crush_rules, last_take, root_of, get_crush_rule_to_root_mappings,
  lookup-get_crush_rule_to_root_mappings,
}
use ceph_exporter.Scenarios.{whole, vectors, object, array, cluster}

abbrev steps : Json
steps = array (
    object (("op", str "take") ∷ ("item_name", str "default") ∷ [])
    ∷ object (("op", str "emit") ∷ [])
    ∷ [])

abbrev informed : Conn
informed = cluster (
    ("osd crush rule dump", array (object (("rule_id", num "0") ∷ ("steps", steps) ∷ []) ∷ []))
    ∷ (
      "osd pool ls",
      array (object (("pool_name", str "rbd") ∷ ("size", num "3") ∷ ("type", num "1") ∷ []) ∷ []),
    )
    ∷ [])

abbrev rules : List Rule
rules =
    record {
      rule_id = pos 0;
      steps =
          record { item_name = "default"; op = "take" }
          ∷ record { item_name = ""; op = "emit" }
          ∷ [];
    }
    ∷ []

crush_rules-informed : crush_rules informed ≡ some rules
unfolding crush_rules find same_key get items lookup atoi
crush_rules-informed = refl

lookup-get_crush_rule_to_root_mappings_example :
    lookup (pos 0) (get_crush_rule_to_root_mappings informed) ≡ some "default"
unfolding root_of last_take
lookup-get_crush_rule_to_root_mappings_example =
    lookup-get_crush_rule_to_root_mappings informed rules (pos 0) crush_rules-informed

abbrev pools : List (PoolInfo whole)
pools =
    record {
      name = "rbd";
      actual_size = 3;
      min_size = 0;
      pg_num = 0;
      placement_pg_num = 0;
      quota_max_bytes = 0;
      quota_max_objects = 0;
      profile = "";
      type = pos 1;
      stripe_width = 0;
      crush_rule = pos 0;
    }
    ∷ []

pools_reply-informed : pools_reply whole informed ≡ some pools
unfolding pools_reply find same_key get items lookup atoi
pools_reply-informed = refl

-- A pool that has gone stands in the vectors.
abbrev stale : Vecs whole vectors
stale = λ g. ("gone" ∷ "replicated" ∷ "default" ∷ [], 9) ∷ []

collect-latest_example :
    Option.map
      (λ (vs : Vecs whole vectors).
        lookup ("gone" ∷ "replicated" ∷ "default" ∷ []) (vs actual_size))
      (collect whole vectors informed stale)
    ≡ some (
        latest whole vectors informed
          (get_crush_rule_to_root_mappings informed)
          actual_size
          ("gone" ∷ "replicated" ∷ "default" ∷ [])
          none
          pools)
collect-latest_example =
    collect-latest whole vectors informed stale pools actual_size
      ("gone" ∷ "replicated" ∷ "default" ∷ []) pools_reply-informed
