-- ===== src/Mds/Laws.antt =====
-- ceph/mds.go: what a scrape sends, and the counts of the blocked operations.
use ceph_exporter.Base.{
  ℕ, zero, suc, ◌≤◌, String, ◌≡◌, refl, sym, ap, ◌∙◌, false, none, some, List, [], ◌∷◌, ◌++◌,
  length, strings_eq, string_eq, arith, Bool-cases, Option-cases, inl, inr, ltb,
}
use mathlib.Core.List.{append_assoc, append-nil}
use ceph_exporter.Float.{Float64}
use ceph_exporter.Prometheus.{Metric}
use ceph_exporter.Mds.{
  Commands, MdsCollector, capacity, server_of, stat_reply, offer, offer_all, state_metrics,
  op_metrics, collect_details, slow_requests, collect_mds_slow_ops, refresh, collect,
}

unfoldable pub take : {A : Type 0} → ℕ → List A → List A
take zero xs = []
take (suc n) [] = []
take (suc n) (x ∷ xs) = x ∷ take n xs

take-all : {A : Type 0} (n : ℕ) (xs : List A) → length xs ≤ n → take n xs ≡ xs
unfolding take
take-all zero [] h = refl
take-all zero (x ∷ xs) h = absurd (omega arith)
take-all (suc n) [] h = refl
take-all (suc n) (x ∷ xs) h = ap (◌∷◌ x) (take-all n xs (omega arith))

take-length : {A : Type 0} (n : ℕ) (xs ys : List A) → length xs ≡ n → take n (xs ++ ys) ≡ xs
unfolding take
take-length zero [] ys h = refl
take-length zero (x ∷ xs) ys h = absurd (omega arith)
take-length (suc n) [] ys h = absurd (omega arith)
take-length (suc n) (x ∷ xs) ys h = ap (◌∷◌ x) (take-length n xs ys (omega arith))

pub length-snoc : {A : Type 0} (xs : List A) (x : A) → length (xs ++ x ∷ []) ≡ suc (length xs)
length-snoc [] x = refl
length-snoc (y ∷ xs) x = ap suc (length-snoc xs x)

module _ (fl : Float64) where
  open fl use {Value}

  -- A channel takes what fits.
  offer_all-take :
      (ms ch : List (Metric Value))
      → length ch ≤ capacity
      → offer_all fl ms ch ≡ take capacity (ch ++ ms)
  unfolding offer_all offer
  offer_all-take [] ch h = sym (ap (take capacity) (append-nil ch) ∙ take-all capacity ch h)
  offer_all-take (m ∷ ms) ch h = elim (Bool-cases (ltb (length ch) capacity)) [
    | inl e ↦ rw e (
        offer_all-take ms (ch ++ m ∷ []) (rw (length-snoc ch m) (ground arith))
        ∙ ap (take capacity) (append_assoc ch (m ∷ []) ms))
    | inr e ↦ rw e (
        offer_all-take ms ch h
        ∙ take-length capacity ch ms (ground arith)
        ∙ sym (take-length capacity ch (m ∷ ms) (ground arith)))
  ]

  offer_all-append :
      (xs ys ch : List (Metric Value))
      → offer_all fl (xs ++ ys) ch ≡ offer_all fl ys (offer_all fl xs ch)
  unfolding offer_all
  offer_all-append [] ys ch = refl
  offer_all-append (x ∷ xs) ys ch = offer_all-append xs ys (offer fl x ch)

  -- The operations of the servers that the details name, up to the first for which a command fails.
  unfoldable pub blocked : Commands → List String → List (Metric Value)
  blocked cmds [] = []
  blocked cmds (message ∷ rest) = elim (server_of message) [
    | none ↦ blocked cmds rest
    | some mds ↦ elim (op_metrics fl cmds mds) [ none ↦ [] | some ms ↦ ms ++ blocked cmds rest ]
  ]

  collect_details-blocked :
      (cmds : Commands) (ds : List String) (ch : List (Metric Value))
      → collect_details fl cmds ds ch ≡ offer_all fl (blocked cmds ds) ch
  unfolding collect_details offer_all blocked
  collect_details-blocked cmds [] ch = refl
  collect_details-blocked cmds (message ∷ rest) ch = elim (Option-cases (server_of message)) [
    | inl e ↦ rw (e, collect_details, blocked) (collect_details-blocked cmds rest ch)
    | inr (mds, e) ↦ elim (Option-cases (op_metrics fl cmds mds)) [
      | inl f ↦ rw (e, f, collect_details, blocked) refl
      | inr (ms, f) ↦
          rw (e, f, collect_details, blocked)
            (collect_details-blocked cmds rest (offer_all fl ms ch)
              ∙ sym (offer_all-append ms (blocked cmds rest) ch))
    ]
  ]

  -- All that the cluster reports: the state of each server, and the blocked operations.
  unfoldable pub reported : Commands → List (Metric Value)
  unfolding stat_reply state_metrics slow_requests blocked
  reported cmds = elim (stat_reply cmds) [
    | none ↦ []
    | some maps ↦ state_metrics fl maps ++ blocked cmds (slow_requests cmds)
  ]

  refresh-reported :
      (cmds : Commands) (ch : List (Metric Value))
      → refresh fl cmds ch ≡ offer_all fl (reported cmds) ch
  unfolding refresh collect_mds_slow_ops reported offer_all
  refresh-reported cmds ch = elim (Option-cases (stat_reply cmds)) [
    | inl e ↦ rw (e, refresh, reported) refl
    | inr (maps, e) ↦
        rw (e, refresh, reported)
          (collect_details-blocked cmds (slow_requests cmds)
              (offer_all fl (state_metrics fl maps) ch)
            ∙ sym (offer_all-append (state_metrics fl maps) (blocked cmds (slow_requests cmds)) ch))
  ]

  -- In the foreground mode, with an empty channel, a scrape sends the first hundred of the metrics
  -- that the cluster reports, in their order, and drops the others; the channel is empty afterwards.
  -- The blocked operations are those of the servers up to the first for which a command fails.
  pub collect-reported :
      (cmds : Commands) (m : MdsCollector fl)
      → m.background ≡ false
      → m.ch ≡ []
      → ((collect fl cmds m).1 ≡ take capacity (reported cmds)) × ((collect fl cmds m).0.ch ≡ [])
  unfolding collect
  collect-reported cmds m b e = rw b (
    refresh-reported cmds m.ch
        ∙ ap (offer_all fl (reported cmds)) e
        ∙ offer_all-take (reported cmds) [] (omega arith),
    refl,
  )
