-- ===== src/Main.antt =====
-- config.go and main.go: which clusters are exported, how the exporters are made and registered, and
-- how the server listens.
pub mod Laws
use ceph_exporter.Base.{
  ℕ, String, Bool, true, false, not, ◌&&◌, Option, none, some, ◌>>=◌, List, [], ◌∷◌, ℤ, pos, codes,
  if◌then◌else◌, Text,
}
use ceph_exporter.Base.Result.{Result, ok, err}
use ceph_exporter.Conn.{Conn}
use ceph_exporter.Rados.{Library, ConnError, RadosConn, new_rados_conn, conn_of}
use ceph_exporter.Exporter.{VersionedCollectors, Exporter, new_exporter}
use ceph_exporter.Exporter.Versions.{Gabs}

pub record ClusterConfig : Type 0 where
  pub cluster_label : String
  pub user : String
  pub config_file : String

abbrev pub Config : Type 0
Config = List ClusterConfig

-- The program goes on, or it ends by logger.Fatal, or it panics.
pub data Outcome {ℓ} (A : Type ℓ) : Type ℓ where
  going : A → Outcome A
  fatal : String → Outcome A
  panicked : Outcome A

infixl 5 ◌>>>◌
abbrev pub ◌>>>◌ {ℓ κ} : {A : Type ℓ} {B : Type κ} → Outcome A → (A → Outcome B) → Outcome B
going a >>> next = next a
fatal message >>> next = fatal message
panicked >>> next = panicked

-- What os.Stat says of a path: whether it is a directory, or why there is no answer.
pub data Stat : Type 0 where
  found : (is_dir : Bool) → Stat
  not_exist other_error : Stat

-- fileExists: where the error is another, the result of os.Stat is nil and its method is called.
abbrev pub file_exists : Stat → Outcome Bool
file_exists (found is_dir) = going (not is_dir)
file_exists not_exist = going false
file_exists other_error = panicked

-- The settings that main reads from the environment.
pub record Settings : Type 0 where
  pub metrics_addr : String
  pub metrics_path : String
  pub exporter_config : String
  pub rgw_mode : ℤ
  pub mds_mode : ℤ
  pub log_level : String
  pub ceph_cluster : String
  pub ceph_config : String
  pub ceph_user : String
  -- in nanoseconds
  pub ceph_rados_op_timeout : ℕ
  pub tls_cert_path : String
  pub tls_key_path : String

abbrev pub default_settings : Settings
default_settings = record {
  metrics_addr = ":9128";
  metrics_path = "/metrics";
  exporter_config = "/etc/ceph/exporter.yml";
  rgw_mode = pos 0;
  mds_mode = pos 0;
  log_level = "info";
  ceph_cluster = "ceph";
  ceph_config = "/etc/ceph/ceph.conf";
  ceph_user = "admin";
  ceph_rados_op_timeout = 30000000000;
  tls_cert_path = "";
  tls_key_path = "";
}

-- The files of the machine: os.Stat, and os.ReadFile with yaml.Unmarshal into Config, which is `none`
-- where one of them returns an error.
pub record Files : Type 1 where
  pub Bytes : Type 0
  pub stat : String → Stat
  pub read_file : String → Option Bytes
  pub unmarshal : Bytes → Option Config

unfoldable pub parse_config : Files → String → Option Config
parse_config files path = do data_read ← files.read_file path; files.unmarshal data_read

abbrev pub or_fatal {ℓ} : {A : Type ℓ} → String → Option A → Outcome A
or_fatal message none = fatal message
or_fatal message (some a) = going a

abbrev pub from_flags : Settings → Config
from_flags s =
    record { cluster_label = s.ceph_cluster; user = s.ceph_user; config_file = s.ceph_config } ∷ []

unfoldable pub chosen : Files → Settings → Bool → Outcome Config
unfolding parse_config
chosen files s true =
    or_fatal "error parsing ceph_exporter config file" (parse_config files s.exporter_config)
chosen files s false = going (from_flags s)

-- The clusters that are exported.
unfoldable pub cluster_configs : Files → Settings → Outcome Config
unfolding chosen
cluster_configs files s = file_exists (files.stat s.exporter_config) >>> chosen files s

-- How the server listens: over TLS if both paths are set.
pub data Listener : Type 0 where
  plain : Listener
  tls : (cert key : String) → Listener

abbrev pub is_set : String → Bool
is_set s = not (is_nil (codes s))
  where
    is_nil : Text → Bool
    is_nil [] = true
    is_nil (c ∷ cs) = false

abbrev pub listener : Settings → Listener
listener s =
    if is_set s.tls_cert_path && is_set s.tls_key_path
    then tls s.tls_cert_path s.tls_key_path
    else plain

-- How AcceptTCP ends, and what Accept makes of it.
pub data Accepted (TcpConn : Type 0) : Type 0 where
  accepted : TcpConn → Accepted TcpConn
  too_many_files : Accepted TcpConn
  accept_error : String → Accepted TcpConn

-- A connection that is kept alive, with the period in nanoseconds.
pub record KeptAlive (TcpConn : Type 0) : Type 0 where
  pub conn : TcpConn
  pub period : ℕ

unfoldable pub accept :
    {TcpConn : Type 0} → Accepted TcpConn → Outcome (Result String (KeptAlive TcpConn))
accept (accepted c) = going (ok (record { conn = c; period = 180000000000 }))
accept too_many_files = fatal "running out of file descriptors"
accept (accept_error e) = going (err e)

module _ (lib : Library) (seconds : ℕ → String) (tie : Bool) {V : Type 0} (gabs : Gabs V)
    (cs : VersionedCollectors V) where
  -- The registry of the Prometheus library: MustRegister panics, `none`, where Register returns an
  -- error. A cluster for which there is no exporter is a nil pointer, whose Describe panics.
  pub record Registering : Type 1 where
    pub Registry : Type 0
    pub must_register : Exporter gabs cs → Registry → Option Registry

  module _ (reg : Registering) where
    open reg use {Registry}

    abbrev registered : Registry → Option (Exporter gabs cs) → Outcome Registry
    registered r none = panicked
    registered r (some e) = elim (reg.must_register e r) [ none ↦ panicked | some r' ↦ going r' ]

    unfoldable pub connected :
        Settings
        → ClusterConfig
        → Registry
        → Result ConnError (RadosConn lib seconds tie)
        → Outcome Registry
    unfolding conn_of new_exporter
    connected s c r (err e) = fatal "unable to create rados connection for cluster"
    connected s c r (ok conn) = registered r (
        new_exporter gabs cs (conn_of lib seconds tie conn) c.cluster_label c.config_file c.user
          s.rgw_mode s.mds_mode)

    -- A round of the loop over the clusters.
    unfoldable pub export : Settings → ClusterConfig → Registry → Outcome Registry
    unfolding connected new_rados_conn
    export s c r =
        connected s c r
          (new_rados_conn lib seconds tie c.user c.config_file s.ceph_rados_op_timeout)

    unfoldable pub export_all : Settings → Config → Registry → Outcome Registry
    unfolding export
    export_all s [] r = going r
    export_all s (c ∷ cs) r = export s c r >>> export_all s cs

    -- main up to the listener.
    unfoldable pub main : Files → Settings → Registry → Outcome (Registry × Listener)
    unfolding cluster_configs export_all
    main files s r = cluster_configs files s >>> λ configs.
        export_all s configs r >>> λ r'. going (r', listener s)
