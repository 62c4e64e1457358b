-- ===== src/Rados.antt =====
-- rados/rados.go: the connection to a cluster, over the library github.com/ceph/go-ceph/rados.
pub mod Laws
use ceph_exporter.Base.{
  ℕ, String, Bool, true, false, ◌&&◌, ◌||◌, Option, none, some, List, [], ◌∷◌, ltb, if◌then◌else◌,
  ◌==◌,
}
use ceph_exporter.Base.Result.{Result, ok, err, ◌>>=◌}
use ceph_exporter.Json.{Buffer}
use ceph_exporter.Conn.{Conn, Command, PoolStat}

-- What the code calls of the library. A handle is a connection with its configuration, so that a
-- call that changes it returns it anew. An error is its text.
pub record Library : Type 1 where
  pub Handle : Type 0
  pub Context : Type 0
  pub new_conn_with_user : String → Result String Handle
  pub read_config_file : String → Handle → Result String Handle
  pub set_config_option : String → String → Handle → Result String Handle
  -- the time that it takes, and how it ends
  pub connect : Handle → ℕ × Result String Handle
  pub mon_command : Command → Handle → Option Buffer
  pub mgr_command : List Command → Handle → Option Buffer
  pub open_io_context : String → Handle → Option Context
  -- Num_objects_unfound
  pub get_pool_stats : Context → Option ℕ

-- The errors of establishConn, by what was being done.
pub data ConnError : Type 0 where
  creating : String → ConnError
  reading_config_file : String → ConnError
  setting : (option : String) → String → ConnError
  connecting : String → ConnError
  timeout : ConnError

abbrev pub or_error {ℓ} : {A : Type ℓ} → (String → ConnError) → Result String A → Result ConnError A
or_error f (ok a) = ok a
or_error f (err e) = err (f e)

-- What becomes of an IO context.
pub data Event (Context : Type 0) : Type 0 where
  opened destroyed : Context → Event Context

-- `seconds` is the text of a duration in seconds, by strconv.FormatFloat. `tie` is which of two
-- channels a `select` takes where both are ready at once: true for that of the connection.
module _ (lib : Library) (seconds : ℕ → String) (tie : Bool) where
  open lib use {Handle, Context}

  -- The select on the end of Connect and on the timer.
  abbrev pub select : ℕ → ℕ × Result String Handle → Result ConnError Handle
  select limit (time, result) =
      if ltb time limit || (time == limit && tie) then or_error connecting result else err timeout

  abbrev pub set_option : String → String → Handle → Result ConnError Handle
  set_option option value h = or_error (setting option) (lib.set_config_option option value h)

  -- establishConn
  unfoldable pub establish_conn : String → String → ℕ → Result ConnError Handle
  establish_conn user config_file limit = do
    created ← or_error creating (lib.new_conn_with_user user)
    configured ← or_error reading_config_file (lib.read_config_file config_file created)
    osd ← set_option "rados_osd_op_timeout" (seconds limit) configured
    mon ← set_option "rados_mon_op_timeout" (seconds limit) osd
    mount ← set_option "client_mount_timeout" (seconds limit) mon
    select limit (lib.connect mount)

  pub record RadosConn : Type 0 where
    pub user : String
    pub config_file : String
    pub limit : ℕ
    pub conn : Handle

  -- NewRadosConn
  unfoldable pub new_rados_conn : String → String → ℕ → Result ConnError RadosConn
  unfolding establish_conn
  new_rados_conn user config_file limit = do
    conn ← establish_conn user config_file limit
    ok (record { user = user; config_file = config_file; limit = limit; conn = conn })

  abbrev stats_of : Context → Option ℕ → Option PoolStat × List (Event Context)
  stats_of ctx none = (none, opened ctx ∷ destroyed ctx ∷ [])
  stats_of ctx (some n) = (some (record { objects_unfound = n }), opened ctx ∷ destroyed ctx ∷ [])

  abbrev with_context : Option Context → Option PoolStat × List (Event Context)
  with_context none = (none, [])
  with_context (some ctx) = stats_of ctx (lib.get_pool_stats ctx)

  -- GetPoolStats, with what becomes of the context, which is destroyed on return.
  unfoldable pub get_pool_stats : String → RadosConn → Option PoolStat × List (Event Context)
  get_pool_stats pool c = with_context (lib.open_io_context pool c.conn)

  -- The connection as the collectors use it.
  unfoldable pub conn_of : RadosConn → Conn
  unfolding get_pool_stats
  conn_of c = record {
    mon_command = λ command. lib.mon_command command c.conn;
    mgr_command = λ commands. lib.mgr_command commands c.conn;
    get_pool_stats = λ pool. (get_pool_stats pool c).0;
  }
