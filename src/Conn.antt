-- ===== src/Conn.antt =====
-- ceph/conn.go: the interface through which the collectors talk to the cluster. A command is the
-- map that the program marshals; a call that returns an error is `none`. The replies are those that
-- the cluster gives during one collection.
use ceph_exporter.Base.{ℕ, String, Option, List}
use ceph_exporter.Json.{Buffer}

pub data Arg : Type 0 where
  word : String → Arg
  words : List String → Arg

abbrev pub Command : Type 0
Command = List (String × Arg)

-- ObjectsUnfound, a uint64
pub record PoolStat : Type 0 where
  pub objects_unfound : ℕ

pub record Conn : Type 0 where
  pub mon_command : Command → Option Buffer
  pub mgr_command : List Command → Option Buffer
  pub get_pool_stats : String → Option PoolStat
