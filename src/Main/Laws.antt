-- ===== src/Main/Laws.antt =====
-- What `main` of main.go has registered when it begins to listen.
use ceph_exporter.Base.{
  ℕ, String, ◌≡◌, refl, sym, ap, ◌∙◌, Bool, Option, none, some, List, [], ◌∷◌, Option-cases, inl,
  inr,
}
use mathlib.Core.Path.{subst}
use ceph_exporter.Base.Result.{Result, ok, err}
use ceph_exporter.Rados.{Library, ConnError, RadosConn, new_rados_conn, conn_of}
use ceph_exporter.Exporter.{VersionedCollectors, Exporter, new_exporter}
use ceph_exporter.Exporter.Versions.{Gabs}
use ceph_exporter.Main.{
  ClusterConfig, Config, Outcome, going, fatal, panicked, ◌>>>◌, Files, Settings, Listener,
  listener, cluster_configs, Registering, registered, connected, export, export_all, main,
}

>>>-eq-going {ℓ κ} :
    {A : Type ℓ} {B : Type κ} (first : Outcome A) (next : A → Outcome B) {b : B}
    → (first >>> next) ≡ going b
    → (a : A) × (first ≡ going a) × (next a ≡ going b)
>>>-eq-going (going a) next h = (a, refl, h)
>>>-eq-going (fatal m) next h = cc
>>>-eq-going panicked next h = cc

module _ (lib : Library) (seconds : ℕ → String) (tie : Bool) {V : Type 0} (gabs : Gabs V)
    (cs : VersionedCollectors V) where
  -- An exporter that is made for a cluster, over a connection that is established for it.
  pub record IsFor (s : Settings) (c : ClusterConfig) (e : Exporter gabs cs) : Type 1 where
    pub conn : RadosConn lib seconds tie
    pub connects :
        new_rados_conn lib seconds tie c.user c.config_file s.ceph_rados_op_timeout ≡ ok conn
    pub makes :
        new_exporter gabs cs
          (conn_of lib seconds tie conn)
          c.cluster_label
          c.config_file
          c.user
          s.rgw_mode
          s.mds_mode
        ≡ some e

  -- One exporter for each cluster, in order.
  pub data AreFor (s : Settings) : Config → List (Exporter gabs cs) → Type 1 where
    no_cluster : AreFor s [] []
    one_more :
        {c : ClusterConfig} {e : Exporter gabs cs} {rest : Config} {es : List (Exporter gabs cs)}
        → IsFor s c e
        → AreFor s rest es
        → AreFor s (c ∷ rest) (e ∷ es)

  module _ (reg : Registering lib seconds tie gabs cs) where
    open reg use {Registry}

    unfoldable pub register_all : List (Exporter gabs cs) → Registry → Option Registry
    register_all [] r = some r
    register_all (e ∷ es) r = elim (reg.must_register e r) [
      | none ↦ none
      | some r' ↦ register_all es r'
    ]

    registered-going :
        (r r' : Registry) (o : Option (Exporter gabs cs))
        → registered lib seconds tie gabs cs reg r o ≡ going r'
        → (e : Exporter gabs cs) × (o ≡ some e) × (reg.must_register e r ≡ some r')
    registered-going r r' none h = cc
    registered-going r r' (some e) h = elim (Option-cases (reg.must_register e r)) [
      | inl q ↦ cc (rw (q, registered) at h)
      | inr (r'', q) ↦ (
        e,
        refl,
        q
            ∙ ap
                (λ (o : Outcome Registry). elim o [
                  | going x ↦ some x
                  | fatal m ↦ some r''
                  | panicked ↦ some r''
                ])
                (rw (q, registered) at h),
      )
    ]

    connected-going :
        (s : Settings) (c : ClusterConfig) (r r' : Registry)
        (m : Result ConnError (RadosConn lib seconds tie))
        → new_rados_conn lib seconds tie c.user c.config_file s.ceph_rados_op_timeout ≡ m
        → connected lib seconds tie gabs cs reg s c r m ≡ going r'
        → (e : Exporter gabs cs) × IsFor s c e × (reg.must_register e r ≡ some r')
    unfolding connected
    connected-going s c r r' (err e) q h = cc
    connected-going s c r r' (ok conn) q h =
        let (e, made, is_registered) =
          registered-going r r'
            (new_exporter gabs cs (conn_of lib seconds tie conn) c.cluster_label c.config_file
              c.user s.rgw_mode s.mds_mode)
            h in
        (e, record { conn = conn; connects = q; makes = made }, is_registered)

    export_all-going :
        (s : Settings) (configs : Config) (r r' : Registry)
        → export_all lib seconds tie gabs cs reg s configs r ≡ going r'
        → (es : List (Exporter gabs cs)) × AreFor s configs es × (register_all es r ≡ some r')
    unfolding export_all export register_all
    export_all-going s [] r r' h = (
      [],
      no_cluster,
      ap (λ (o : Outcome Registry). elim o [ going x ↦ some x | fatal m ↦ none | panicked ↦ none ])
          h,
    )
    export_all-going s (c ∷ configs) r r' h =
        let (r1, h1, h2) =
          >>>-eq-going (export lib seconds tie gabs cs reg s c r)
            (export_all lib seconds tie gabs cs reg s configs) h in
        let (e, is_for, q) =
          connected-going s c r r1
            (new_rados_conn lib seconds tie c.user c.config_file s.ceph_rados_op_timeout) refl h1 in
        let (es, are_for, qs) = export_all-going s configs r1 r' h2 in
        (e ∷ es, one_more is_for are_for, rw (q, register_all) qs)

    -- When main comes to listen, there is for each of the chosen clusters, in their order, an exporter
    -- with its label, its configuration and user and the two modes, over a connection that was
    -- established for it; these and no others have been registered, none of them failed, and the
    -- listener is that of the settings.
    pub main-exporters :
        (files : Files) (s : Settings) (r r' : Registry) (l : Listener)
        → main lib seconds tie gabs cs reg files s r ≡ going (r', l)
        → (configs : Config) × (cluster_configs files s ≡ going configs)
          × ((es : List (Exporter gabs cs)) × AreFor s configs es × (register_all es r ≡ some r'))
          × (l ≡ listener s)
    unfolding main
    main-exporters files s r r' l h =
        let (configs, h1, h2) = >>>-eq-going (cluster_configs files s) _ h in
        let (r1, h3, h4) = >>>-eq-going (export_all lib seconds tie gabs cs reg s configs r) _ h2 in
        (
          configs,
          h1,
          subst
              (λ (r2 : Registry).
                (es : List (Exporter gabs cs)) × AreFor s configs es
                × (register_all es r ≡ some r2))
              (ap
                (λ (o : Outcome (Registry × Listener)). elim o [
                  | going x ↦ x.0
                  | fatal m ↦ r1
                  | panicked ↦ r1
                ])
                h4)
              (export_all-going s configs r r1 h3),
          sym (
              ap
                (λ (o : Outcome (Registry × Listener)). elim o [
                  | going x ↦ x.1
                  | fatal m ↦ l
                  | panicked ↦ l
                ])
                h4),
        )
