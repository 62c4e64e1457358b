-- ===== src/Rados/Laws.antt =====
-- What `establishConn` of rados/rados.go makes sure of.
use ceph_exporter.Base.{
  ℕ, String, ◌≡◌, ◌<◌, ap, ◌∙◌, Bool, true, ◌||◌, ◌&&◌, ltb, Bool-cases, inl, inr, ◌==◌, arith,
}
use ceph_exporter.Base.Result.{Result, ok, err, >>=-eq-ok}
use ceph_exporter.Rados.{
  Library, ConnError, creating, reading_config_file, setting, connecting, timeout, or_error, select,
  set_option, establish_conn, RadosConn, new_rados_conn,
}

module _ (lib : Library) (seconds : ℕ → String) (tie : Bool) where
  open lib use {Handle}

  or_error-ok :
      {A : Type 0} (f : String → ConnError) (r : Result String A) (a : A)
      → or_error f r ≡ ok a
      → r ≡ ok a
  or_error-ok f (ok b) a h = ap (λ r. elim r [ ok x ↦ ok x | err e ↦ ok b ]) h
  or_error-ok f (err e) a h = cc

  select-ok :
      (limit : ℕ) (p : ℕ × Result String Handle) (h : Handle)
      → select lib seconds tie limit p ≡ ok h
      → ((ltb p.0 limit || (p.0 == limit && tie)) ≡ true) × (p.1 ≡ ok h)
  select-ok limit (time, r) h e = elim (Bool-cases (ltb time limit || (time == limit && tie))) [
    | inl won ↦ (won, or_error-ok connecting r h (rw won at e))
    | inr lost ↦ cc (rw lost at e)
  ]

  -- A connection that is established has been configured from the file for the user, has all three of
  -- the timeouts set to the same limit, and has connected within it.
  pub new_rados_conn-configured :
      (user config_file : String) (limit : ℕ) (c : RadosConn lib seconds tie)
      → new_rados_conn lib seconds tie user config_file limit ≡ ok c
      → (created configured osd mon mount : Handle) × (lib.new_conn_with_user user ≡ ok created)
        × (lib.read_config_file config_file created ≡ ok configured)
        × (lib.set_config_option "rados_osd_op_timeout" (seconds limit) configured ≡ ok osd)
        × (lib.set_config_option "rados_mon_op_timeout" (seconds limit) osd ≡ ok mon)
        × (lib.set_config_option "client_mount_timeout" (seconds limit) mon ≡ ok mount)
        × ((ltb (lib.connect mount).0 limit || ((lib.connect mount).0 == limit && tie)) ≡ true)
        × ((lib.connect mount).1 ≡ ok c.conn)
  unfolding new_rados_conn establish_conn
  new_rados_conn-configured user config_file limit c h =
      let (conn, established, is_c) =
        >>=-eq-ok (establish_conn lib seconds tie user config_file limit) _ h in
      let (created, e0, h0) =
        >>=-eq-ok (or_error creating (lib.new_conn_with_user user)) _ established in
      let (configured, e1, h1) =
        >>=-eq-ok (or_error reading_config_file (lib.read_config_file config_file created)) _ h0 in
      let (osd, e2, h2) =
        >>=-eq-ok (set_option lib seconds tie "rados_osd_op_timeout" (seconds limit) configured) _
          h1 in
      let (mon, e3, h3) =
        >>=-eq-ok (set_option lib seconds tie "rados_mon_op_timeout" (seconds limit) osd) _ h2 in
      let (mount, e4, h4) =
        >>=-eq-ok (set_option lib seconds tie "client_mount_timeout" (seconds limit) mon) _ h3 in
      let (won, connected) = select-ok limit (lib.connect mount) conn h4 in
      (
        created,
        configured,
        osd,
        mon,
        mount,
        or_error-ok creating _ created e0,
        or_error-ok reading_config_file _ configured e1,
        or_error-ok (setting "rados_osd_op_timeout") _ osd e2,
        or_error-ok (setting "rados_mon_op_timeout") _ mon e3,
        or_error-ok (setting "client_mount_timeout") _ mount e4,
        won,
        connected
            ∙ ap
                (λ (r : Result ConnError (RadosConn lib seconds tie)). elim r [
                  | ok x ↦ ok x.conn
                  | err e ↦ ok conn
                ])
                is_c,
      )

  -- The value 0, which the program documents as no limit, lets no connection be made that takes any
  -- time at all: the error is the timeout wherever the steps before it succeed.
  pub establish_conn-no_limit :
      (user config_file : String) (created configured osd mon mount : Handle)
      → lib.new_conn_with_user user ≡ ok created
      → lib.read_config_file config_file created ≡ ok configured
      → lib.set_config_option "rados_osd_op_timeout" (seconds 0) configured ≡ ok osd
      → lib.set_config_option "rados_mon_op_timeout" (seconds 0) osd ≡ ok mon
      → lib.set_config_option "client_mount_timeout" (seconds 0) mon ≡ ok mount
      → 0 < (lib.connect mount).0
      → establish_conn lib seconds tie user config_file 0 ≡ err timeout
  unfolding establish_conn
  establish_conn-no_limit user config_file created configured osd mon mount e0 e1 e2 e3 e4 h =
      rw (e0, e1, e2, e3, e4) (late (lib.connect mount) h)
    where
      late : (p : ℕ × Result String Handle) → 0 < p.0 → select lib seconds tie 0 p ≡ err timeout
      late (time, r) h = ground arith
