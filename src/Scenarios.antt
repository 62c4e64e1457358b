-- ===== src/Scenarios.antt =====
-- Concrete inputs: a cluster, its replies, and instances of what the model takes as parameters; the
-- modules below apply the theorems to them.
mod Versions
mod Crashes
mod Pools
mod Exporters
mod Osds
mod Usage
mod Mirrors
mod Gateways
mod Clusters
mod Servers
mod Quorum
mod OsdReplies
mod Rates
mod Scrapes
mod Starts
use ceph_exporter.Base.{
  ℕ, ◌+◌, ◌-◌, ◌*◌, ◌/◌, String, Bool, true, false, Option, none, some, List, [], ◌∷◌, ◌++◌, ℤ, pos,
  pos_part, codes, lookup, insert, lookup-insert, strings_eq, string_eq, if◌then◌else◌, ltb, refl,
  ◌≡◌, string_beq,
}
use ceph_exporter.Base.Result.{ok, err}
use ceph_exporter.Float.{Float64}
use ceph_exporter.Exporter.Interleaving.{Received, returned, sends}
use ceph_exporter.Prometheus.{GaugeVecs}
use ceph_exporter.Json.{Json, Buffer, Items, Fields, obj, arr, str, num, end, field, nil, cons}
use ceph_exporter.Conn.{Conn, Command, Arg, word, words, PoolStat}
use ceph_exporter.Version.Decimal.{atoi}

-- Numbers without sign or fraction.
abbrev pub whole : Float64
whole = record {
  Value = ℕ;
  parse_float = λ s. elim (atoi (codes s)) [ ok n ↦ (pos_part n, true) | err e ↦ (0, false) ];
  of_int = pos_part;
  add = λ a b. a + b;
  sub = λ a b. a - b;
  mul = λ a b. a * b;
  div = λ a b. a / b;
  max = λ a b. if ltb a b then b else a;
  round = λ a. a;
}

pub lookup-nil : (ks : List String) → lookup {V = ℕ} ks [] ≡ none
unfolding lookup
lookup-nil ks = refl

-- Vectors as lists of their series.
abbrev pub vectors : GaugeVecs ℕ
vectors = record {
  Vec = List (List String × ℕ);
  new = [];
  set = λ v ls x. insert ls x v;
  reset = λ v. [];
  get = λ v ls. lookup ls v;
  listed = λ v. v;
  get-set = λ v ls ks x. lookup-insert ls ks x v;
  get-reset = λ v ks. lookup-nil ks;
  get-new = λ ks. lookup-nil ks;
  lookup-listed = λ v ks. refl;
}

abbrev pub object : List (String × Json) → Json
object kvs = obj (go kvs)
  where
    go : List (String × Json) → Fields
    go [] = end
    go ((k, j) ∷ rest) = field k j (go rest)

abbrev pub array : List Json → Json
array js = arr (go js)
  where
    go : List Json → Items
    go [] = nil
    go (j ∷ rest) = cons j (go rest)

abbrev pub prefix_of : Command → String
prefix_of ((name, word w) ∷ rest) = w
prefix_of _ = ""

-- A cluster that answers each monitor command by its prefix.
abbrev pub cluster : List (String × Json) → Conn
cluster replies = record {
  mon_command = λ c. elim (lookup (prefix_of c) replies) [ none ↦ none | some j ↦ some (some j) ];
  mgr_command = λ cs. none;
  get_pool_stats =
      λ pool. if string_beq pool "rbd" then some (record { objects_unfound = 2 }) else none;
}

-- One goroutine after the other.
pub drain :
    {A : Type 0} (xs : List A) {outs : List (List A)} {sent : List A}
    → Received outs sent
    → Received (xs ∷ outs) (xs ++ sent)
drain [] r = returned r
drain (x ∷ xs) r = sends [] x xs _ (drain xs r)
