-- ===== src/Mds/Counts.antt =====
-- ceph/mds.go: the counts of the blocked operations of a server, by their labels.
use mathlib.Core.Option
use ceph_exporter.Base.{
  ℕ, zero, suc, ◌+◌, String, ◌≡◌, refl, ap, ◌∙◌, Bool, false, Option, none, some, List, [], ◌∷◌,
  map, arith, beq, lookup, lookup-insert, strings_eq, string_eq, if◌then◌else◌, Bool-cases, inl,
  inr,
}
use ceph_exporter.Float.{Float64}
use ceph_exporter.Prometheus.{series}
use ceph_exporter.Mds.Replies.{MdsStatus, Op}
use ceph_exporter.Mds.{
  Commands, labels_of, or_zero, count_one, count_ops, int32, op_metric, server_reply, op_metrics,
}

abbrev is_labelled : List String → Option (List String) → Bool
is_labelled ls none = false
is_labelled ls (some ks) = beq ks ls

-- How many of the operations have the labels.
unfoldable pub occurrences : String → MdsStatus → List String → List Op → ℕ
occurrences mds status ls [] = 0
occurrences mds status ls (op ∷ ops) =
    let rest = occurrences mds status ls ops in
    if is_labelled ls (labels_of mds status op) then suc rest else rest

abbrev add_to : Option ℕ → ℕ → Option ℕ
add_to o zero = o
add_to o (suc n) = some (or_zero o + suc n)

add_to_one : (o : Option ℕ) (n : ℕ) → add_to (some (suc (or_zero o))) n ≡ add_to o (suc n)
add_to_one o zero = ap some (omega arith)
add_to_one o (suc n) = ap some (omega arith)

add_to-count_one :
    (ls : List String) (k : Option (List String)) (m : List (List String × ℕ)) (n : ℕ)
    → add_to (lookup ls (count_one k m)) n
      ≡ add_to (lookup ls m) (if is_labelled ls k then suc n else n)
add_to-count_one ls none m n = refl
add_to-count_one ls (some ks) m n = elim (Bool-cases (beq ks ls)) [
  | inl same ↦
      rw
        (
          lookup-insert ks ls (suc (or_zero (lookup ks m))) m,
          same,
          (strings_eq.beq_iff ks ls).0 same,
        )
        (add_to_one (lookup ls m) n)
  | inr other ↦ rw (lookup-insert ks ls (suc (or_zero (lookup ks m))) m, other) refl
]

lookup-count_ops :
    (mds : String) (status : MdsStatus) (ls : List String) (ops : List Op)
    (m : List (List String × ℕ))
    → lookup ls (count_ops mds status ops m) ≡ add_to (lookup ls m) (occurrences mds status ls ops)
unfolding count_ops occurrences
lookup-count_ops mds status ls [] m = refl
lookup-count_ops mds status ls (op ∷ ops) m =
    lookup-count_ops mds status ls ops (count_one (labels_of mds status op) m)
    ∙ add_to-count_one ls (labels_of mds status op) m (occurrences mds status ls ops)

module _ (fl : Float64) where
  -- The value of a series that counts so many operations; there is none for none.
  abbrev pub counted : ℕ → Option fl.Value
  counted zero = none
  counted (suc n) = some (fl.of_int (int32 (suc n)))

  series-op_metric :
      (ls : List String) (m : List (List String × ℕ))
      → series ls (map (op_metric fl) m) ≡ Option.map (λ n. fl.of_int (int32 n)) (lookup ls m)
  unfolding series lookup
  series-op_metric ls [] = refl
  series-op_metric ls ((k, n) ∷ m) = elim (Bool-cases (beq k ls)) [
    | inl same ↦ rw same refl
    | inr other ↦ rw other (series-op_metric ls m)
  ]

  counted_lem : (n : ℕ) → Option.map (λ n. fl.of_int (int32 n)) (add_to none n) ≡ counted n
  counted_lem zero = refl
  counted_lem (suc n) = ap (λ k. some (fl.of_int (int32 k))) (omega arith)

  -- Where both replies of a server are there, the series of blocked operations with some label values
  -- carries, as an int32, the number of the operations with them, and there is no such series where
  -- no operation has them.
  pub op_metrics-occurrences :
      (cmds : Commands) (mds : String) (status : MdsStatus) (ops : List Op) (ls : List String)
      → server_reply fl cmds mds ≡ some (status, ops)
      → Option.map (series ls) (op_metrics fl cmds mds)
        ≡ some (counted (occurrences mds status ls ops))
  unfolding op_metrics lookup
  op_metrics-occurrences cmds mds status ops ls h = rw h (
      ap some (
        series-op_metric ls (count_ops mds status ops [])
        ∙ ap (Option.map (λ n. fl.of_int (int32 n))) (lookup-count_ops mds status ls ops [])
        ∙ counted_lem (occurrences mds status ls ops)))
