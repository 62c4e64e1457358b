-- ===== src/Scenarios/Starts.antt =====
-- The theorems on the connection and on main, at a cluster that answers.
use ceph_exporter.Base.{
  ℕ, lookup, String, ◌≡◌, refl, true, false, none, some, List, [], ◌∷◌, ◌||◌, ◌&&◌, ltb, ◌==◌,
  arith, split,
}
use ceph_exporter.Base.Result.{ok, err}
use ceph_exporter.Json.{find, same_key, get}
use ceph_exporter.Version.Decimal.{atoi}
use ceph_exporter.Version.Pattern.{standardize}
use ceph_exporter.Version.Parse.{parse_ceph_version}
use ceph_exporter.Exporter.{Exporter, new_exporter, version_reply}
use ceph_exporter.Rados.{Library, timeout, establish_conn, RadosConn, new_rados_conn}
use ceph_exporter.Rados.Laws.{new_rados_conn-configured, establish_conn-no_limit}
use ceph_exporter.Main.{
  Config, Files, found, default_settings, plain, listener, cluster_configs, Registering, going,
  main,
}
use ceph_exporter.Main.Laws.{AreFor, register_all, main-exporters}
use ceph_exporter.Scenarios.Exporters.{parser, kinds, mirrored}

-- A handle is the list of what was done with it.
abbrev library : Library
library = record {
  Handle = List String;
  Context = Unit;
  new_conn_with_user = λ user. ok (user ∷ []);
  read_config_file = λ file h. ok (file ∷ h);
  set_config_option = λ option value h. ok (option ∷ h);
  connect = λ h. (5, ok ("connected" ∷ h));
  mon_command = λ c h. mirrored.mon_command c;
  mgr_command = λ cs h. none;
  open_io_context = λ pool h. some tt;
  get_pool_stats = λ ctx. some 2;
}

abbrev seconds : ℕ → String
seconds n = "30"

abbrev steps : List String
steps =
    "connected" ∷ "client_mount_timeout" ∷ "rados_mon_op_timeout" ∷ "rados_osd_op_timeout"
    ∷ "ceph.conf" ∷ "admin" ∷ []

abbrev connection : RadosConn library seconds false
connection = record { user = "admin"; config_file = "ceph.conf"; limit = 30; conn = steps }

new_rados_conn-configured_example :
    (created configured osd mon mount : List String) × (library.new_conn_with_user "admin"
      ≡ ok created)
    × (library.read_config_file "ceph.conf" created ≡ ok configured)
    × (library.set_config_option "rados_osd_op_timeout" (seconds 30) configured ≡ ok osd)
    × (library.set_config_option "rados_mon_op_timeout" (seconds 30) osd ≡ ok mon)
    × (library.set_config_option "client_mount_timeout" (seconds 30) mon ≡ ok mount)
    × ((ltb (library.connect mount).0 30 || ((library.connect mount).0 == 30 && false)) ≡ true)
    × ((library.connect mount).1 ≡ ok steps)
unfolding new_rados_conn
new_rados_conn-configured_example =
    new_rados_conn-configured library seconds false "admin" "ceph.conf" 30 connection refl

establish_conn-no_limit_example :
    establish_conn library seconds false "admin" "ceph.conf" 0 ≡ err timeout
establish_conn-no_limit_example =
    establish_conn-no_limit library seconds false "admin" "ceph.conf" ("admin" ∷ [])
      ("ceph.conf" ∷ "admin" ∷ []) ("rados_osd_op_timeout" ∷ "ceph.conf" ∷ "admin" ∷ [])
      ("rados_mon_op_timeout" ∷ "rados_osd_op_timeout" ∷ "ceph.conf" ∷ "admin" ∷ [])
      ("client_mount_timeout" ∷ "rados_mon_op_timeout" ∷ "rados_osd_op_timeout" ∷ "ceph.conf"
        ∷ "admin" ∷ [])
      refl refl refl refl refl (omega arith)

-- A configuration file with two clusters.
abbrev two_clusters : Config
two_clusters =
    record { cluster_label = "a"; user = "admin"; config_file = "a.conf" }
    ∷ record { cluster_label = "b"; user = "admin"; config_file = "b.conf" }
    ∷ []

abbrev files : Files
files = record {
  Bytes = String;
  stat = λ path. found false;
  read_file = λ path. some path;
  unmarshal = λ bytes. some two_clusters;
}

-- The labels that are registered.
abbrev registering : Registering library seconds false parser kinds
registering = record {
  Registry = List String;
  must_register = λ e labels. some (e.cluster ∷ labels);
}

main_two :
    main library seconds false parser kinds registering files default_settings []
    ≡ going ("b" ∷ "a" ∷ [], plain)
unfolding main version_reply new_exporter find same_key get lookup parse_ceph_version standardize
    atoi split
main_two = refl

main-exporters_example :
    (configs : Config) × (cluster_configs files default_settings ≡ going configs)
    × ((es : List (Exporter parser kinds)) × AreFor library seconds false parser kinds
          default_settings configs es
        × (register_all library seconds false parser kinds registering es []
            ≡ some ("b" ∷ "a" ∷ [])))
    × (plain ≡ listener default_settings)
main-exporters_example =
    main-exporters library seconds false parser kinds registering files default_settings []
      ("b" ∷ "a" ∷ []) plain main_two
