-- ===== src/Health/States/Laws.antt =====
-- `collect` of ceph/health.go: the value of each state.
use ceph_exporter.Base.{
  String, ◌≡◌, refl, ap, ◌∙◌, true, some, List, [], ◌∷◌, map, Text, codes, text_eq, if◌then◌else◌,
  arith, Bool-cases, inl, inr, beq, lookup, pos, ◌&&◌, text_key, text_eq_iff, string_eq, strings_eq,
  eq_iff,
}
use mathlib.Core.Option
use ceph_exporter.Float.{Float64}
use ceph_exporter.Prometheus.{Desc, keyed}
use ceph_exporter.Health.Descs.{pg_state}
use ceph_exporter.Health.States.{
  PgsByState, Counters, states_of, pg_state_gauges, zero_count, no_counts, bump, count_states,
  count_pgs, value_of, state_metrics, send_states,
}

module _ (fl : Float64) where
  open fl use {Value, of_int, add}

  -- The counts of the entries, each as often as it names the state, added to `x` one by one.
  unfoldable pub add_named : Text → Value → Value → List Text → Value
  add_named s x n [] = x
  add_named s x n (t ∷ ts) = add_named s (if text_eq t s then add x n else x) n ts

  unfoldable pub total : Text → Value → List (PgsByState fl) → Value
  total s x [] = x
  total s x (p ∷ ps) = total s (add_named s x p.count (states_of (codes p.states))) ps

  lookup-bump :
      (s : Text) (n : Value) (state : Text) (m : Counters fl)
      → lookup s (bump fl n state m)
        ≡ (if text_eq state s then Option.map (λ x. add x n) (lookup s m) else lookup s m)
  unfolding bump lookup
  lookup-bump s n state [] = elim (Bool-cases (text_eq state s)) [
    | inl e ↦ rw e refl
    | inr e ↦ rw e refl
  ]
  lookup-bump s n state ((k, x) ∷ rest) =
      ground (
        arith,
        text_eq_iff k state,
        text_eq_iff k s,
        text_eq_iff state s,
        lookup-bump s n state rest,
      )

  lookup-count_states :
      (s : Text) (n : Value) (m : Counters fl) (states : List Text) (x : Value)
      → lookup s m ≡ some x
      → lookup s (count_states fl n m states) ≡ some (add_named s x n states)
  unfolding count_states add_named
  lookup-count_states s n m [] x h = h
  lookup-count_states s n m (t ∷ ts) x h =
      lookup-count_states s n (bump fl n t m) ts (if text_eq t s then add x n else x) (
        lookup-bump s n t m
        ∙ elim (Bool-cases (text_eq t s)) [ inl e ↦ rw (e, h) refl | inr e ↦ rw (e, h) refl ])

  lookup-count_pgs :
      (s : Text) (m : Counters fl) (ps : List (PgsByState fl)) (x : Value)
      → lookup s m ≡ some x
      → lookup s (count_pgs fl m ps) ≡ some (total s x ps)
  unfolding count_pgs total
  lookup-count_pgs s m [] x h = h
  lookup-count_pgs s m (p ∷ ps) x h =
      let states = states_of (codes p.states) in
      lookup-count_pgs s (count_states fl p.count m states) ps (add_named s x p.count states)
        (lookup-count_states s p.count m states x h)

  lookup-no_counts :
      (state : String) (d : Desc) (table : List (String × Desc))
      → lookup state table ≡ some d
      → lookup (codes state) (map (zero_count fl) table) ≡ some (of_int (pos 0))
  unfolding lookup
  lookup-no_counts state d [] h = cc
  lookup-no_counts state d ((k, e) ∷ rest) h = elim (Bool-cases (text_eq (codes k) (codes state))) [
    | inl same ↦ rw same refl
    | inr other ↦ rw other (elim (Bool-cases (beq k state)) [
      | inl e ↦
          let same = (text_eq_iff (codes k) (codes state)).1 (ap codes ((eq_iff k state).0 e)) in cc
      | inr f ↦ lookup-no_counts state d rest (rw f at h)
    ])
  ]

  -- A dedicated series has no label, so it is not taken for one by state.
  state_metrics-lookup :
      (state : String) (d : Desc) (m : Counters fl) (table : List (String × Desc))
      → lookup state table ≡ some d
      → lookup (pg_state.name ∷ state ∷ []) (map keyed (state_metrics fl m table))
        ≡ some (value_of fl (lookup (codes state) m))
  unfolding state_metrics lookup
  state_metrics-lookup state d m [] h = cc
  state_metrics-lookup state d m ((k, e) ∷ rest) h = elim (Bool-cases (beq e.name pg_state.name)) [
    | inl named ↦ rw named (by_state k e rest (state_metrics-lookup state d m rest) h)
    | inr other ↦ rw other (by_state k e rest (state_metrics-lookup state d m rest) h)
  ]
    where
      by_state :
          (k : String) (e : Desc) (rest : List (String × Desc))
          → (lookup state rest ≡ some d
              → lookup (pg_state.name ∷ state ∷ []) (map keyed (state_metrics fl m rest))
                ≡ some (value_of fl (lookup (codes state) m)))
          → lookup state ((k, e) ∷ rest) ≡ some d
          → (if beq k state && true
              then some (value_of fl (lookup (codes k) m))
              else lookup (pg_state.name ∷ state ∷ []) (map keyed (state_metrics fl m rest)))
            ≡ some (value_of fl (lookup (codes state) m))
      by_state k e rest ih h = elim (Bool-cases (beq k state)) [
        | inl same ↦
            rw same (ap (λ s. some (value_of fl (lookup (codes s) m))) ((eq_iff k state).0 same))
        | inr other ↦ rw other (ih (rw other at h))
      ]

  -- For each state that the collector knows, the series of that state is the sum of the counts of
  -- the entries that name it, added in their order, where "scrubbing+deep" in the text of an entry
  -- counts as the state "deep_scrubbing".
  pub send_states-total :
      (ps : List (PgsByState fl)) (state : String) (d : Desc)
      → lookup state pg_state_gauges ≡ some d
      → lookup (pg_state.name ∷ state ∷ []) (map keyed (send_states fl ps))
        ≡ some (total (codes state) (of_int (pos 0)) ps)
  unfolding send_states
  send_states-total ps state d h =
      state_metrics-lookup state d (count_pgs fl (no_counts fl) ps) pg_state_gauges h
      ∙ ap (λ o. some (value_of fl o))
          (lookup-count_pgs (codes state) (no_counts fl) ps (of_int (pos 0))
            (lookup-no_counts state d pg_state_gauges h))
