-- ===== src/Exporter/Versions.antt =====
-- `CephVersionsCmd` and `ParseCephVersions` of ceph/exporter.go: how many daemons of each kind run
-- each version. The program reads the reply with the library github.com/Jeffail/gabs.
use ceph_exporter.Base.{String, Option, none, some, ◌>>=◌, List, [], ◌∷◌, insert, string_eq}
use ceph_exporter.Json.{Buffer}
use ceph_exporter.Conn.{Command, word}

-- What gabs is asked of a container.
pub data Children (C : Type 0) : Type 0 where
  children : List (String × C) → Children C
  not_obj : Children C
  other_error : Children C

pub record Gabs (V : Type 0) : Type 1 where
  pub Container : Type 0
  pub parse_json : Buffer → Option Container
  pub children_map : Container → Children Container
  -- Data().(float64)
  pub data_float : Container → Option V

-- ceph versions
abbrev pub ceph_versions_command : Command
ceph_versions_command = ("prefix", word "versions") ∷ ("format", word "json") ∷ []

module _ {V : Type 0} (gabs : Gabs V) where
  open gabs use {Container, parse_json, children_map, data_float}

  abbrev pub Counts : Type 0
  Counts = List (String × V)

  abbrev count : Option V → String → Counts → Counts
  count none version m = m
  count (some n) version m = insert version n m

  -- The inner loop, over the versions of one daemon.
  unfoldable pub read_counts : Counts → List (String × Container) → Counts
  read_counts m [] = m
  read_counts m ((version, c) ∷ rest) = read_counts (count (data_float c) version m) rest

  abbrev pub read_daemon :
      String → Children Container → List (String × Counts) → Option (List (String × Counts))
  unfolding read_counts
  read_daemon daemon (children cs) m = some (insert daemon (read_counts [] cs) m)
  read_daemon daemon not_obj m = some m
  read_daemon daemon other_error m = none

  -- The outer loop.
  unfoldable pub read_daemons :
      List (String × Counts) → List (String × Container) → Option (List (String × Counts))
  unfolding read_daemon
  read_daemons m [] = some m
  read_daemons m ((daemon, c) ∷ rest) = do
    m' ← read_daemon daemon (children_map c) m
    read_daemons m' rest

  abbrev parsed_map : Children Container → Option (List (String × Container))
  parsed_map (children cs) = some cs
  parsed_map _ = none

  unfoldable pub parse_ceph_versions : Buffer → Option (List (String × Counts))
  unfolding read_daemons
  parse_ceph_versions buf = do
    c ← parse_json buf
    cs ← parsed_map (children_map c)
    read_daemons [] cs
