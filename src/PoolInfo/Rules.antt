-- ===== src/PoolInfo/Rules.antt =====
-- `getCrushRuleToRootMappings` of ceph/pool.go: the root of each CRUSH rule.
use ceph_exporter.Base.{
  String, ◌≡◌, refl, ap, ◌∙◌, Option, none, some, ◌>>=◌, List, [], ◌∷◌, ℤ, pos, string_beq, beq,
  int_eq, lookup, insert, lookup-insert, arith, if◌then◌else◌,
}
use ceph_exporter.Json.{Decoder, fields, get, string, int, slice, unmarshal}
use ceph_exporter.Conn.{Conn, Command, word}

pub record Step : Type 0 where
  pub item_name : String
  pub op : String

pub record Rule : Type 0 where
  pub rule_id : ℤ
  pub steps : List Step

abbrev decode_step : Decoder Step
decode_step j = do
  fs ← fields j
  item_name ← get "item_name" "" string fs
  op ← get "op" "" string fs
  some (record { item_name = item_name; op = op })

abbrev decode_rule : Decoder Rule
decode_rule j = do
  fs ← fields j
  rule_id ← get "rule_id" (pos 0) int fs
  steps ← get "steps" [] (slice (record { item_name = ""; op = "" }) decode_step) fs
  some (record { rule_id = rule_id; steps = steps })

abbrev crush_rule_command : Command
crush_rule_command = ("prefix", word "osd crush rule dump") ∷ ("format", word "json") ∷ []

-- the loop over the steps of one rule
map_steps : ℤ → List (ℤ × String) → List Step → List (ℤ × String)
map_steps id m [] = m
map_steps id m (s ∷ ss) =
    map_steps id (if string_beq s.op "take" then insert id s.item_name m else m) ss

-- the loop over the rules
map_rules : List (ℤ × String) → List Rule → List (ℤ × String)
unfolding map_steps
map_rules m [] = m
map_rules m (r ∷ rs) = map_rules (map_steps r.rule_id m r.steps) rs

unfoldable pub crush_rules : Conn → Option (List Rule)
crush_rules conn = do
  buf ← conn.mon_command crush_rule_command
  unmarshal (slice (record { rule_id = pos 0; steps = [] }) decode_rule) buf

-- An error leaves the map empty.
roots_of : Option (List Rule) → List (ℤ × String)
unfolding map_rules
roots_of none = []
roots_of (some rules) = map_rules [] rules

pub get_crush_rule_to_root_mappings : Conn → List (ℤ × String)
unfolding roots_of
get_crush_rule_to_root_mappings conn = roots_of (crush_rules conn)

-- The item of the last `take` step, if there is one.
unfoldable pub last_take : Option String → List Step → Option String
last_take found [] = found
last_take found (s ∷ ss) = last_take (if string_beq s.op "take" then some s.item_name else found) ss

-- The root of a rule: the last `take` among the steps of all the rules with its id.
unfoldable pub root_of : ℤ → Option String → List Rule → Option String
root_of id found [] = found
root_of id found (r ∷ rs) =
    root_of id (if beq r.rule_id id then last_take found r.steps else found) rs

lookup-map_steps :
    (id j : ℤ) (m : List (ℤ × String)) (ss : List Step)
    → lookup j (map_steps id m ss) ≡ (if beq id j then last_take (lookup j m) ss else lookup j m)
unfolding map_steps last_take
lookup-map_steps id j m [] = ground arith
lookup-map_steps id j m (s ∷ ss) = ground (
  arith,
  lookup-map_steps id j (if string_beq s.op "take" then insert id s.item_name m else m) ss,
  lookup-insert id j s.item_name m,
)

lookup-map_rules :
    (j : ℤ) (m : List (ℤ × String)) (rs : List Rule)
    → lookup j (map_rules m rs) ≡ root_of j (lookup j m) rs
unfolding map_rules root_of
lookup-map_rules j m [] = refl
lookup-map_rules j m (r ∷ rs) =
    lookup-map_rules j (map_steps r.rule_id m r.steps) rs
    ∙ ap (λ o. root_of j o rs) (lookup-map_steps r.rule_id j m r.steps)

-- When the cluster lists its CRUSH rules, the root found for a rule is the item of the last `take`
-- step among the rules with its id, and there is none when they have no such step.
pub lookup-get_crush_rule_to_root_mappings :
    (conn : Conn) (rules : List Rule) (id : ℤ)
    → crush_rules conn ≡ some rules
    → lookup id (get_crush_rule_to_root_mappings conn) ≡ root_of id none rules
unfolding get_crush_rule_to_root_mappings lookup
lookup-get_crush_rule_to_root_mappings conn rules id h = rw h (lookup-map_rules id [] rules)
