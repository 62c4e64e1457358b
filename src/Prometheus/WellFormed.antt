-- ===== src/Prometheus/WellFormed.antt =====
-- Metrics with one label value for each label of their descriptors, and vectors of which all series
-- have as many label values.
use ceph_exporter.Base.{
  ℕ, String, ◌≡◌, refl, sym, ap, ◌∙◌, Bool, true, none, some, List, [], ◌∷◌, map, all, length,
  lookup, beq, strings_eq, ◌==◌, ==_iff, Bool-cases, inl, inr, both, all-split, all-append,
}
use mathlib.Core.List.{Memᴰ}
use ceph_exporter.Prometheus.{Desc, Kind, Metric, IsWellFormed, GaugeVecs, metrics_of}
use ceph_exporter.Exporter.Interleaving.{Received, closed, returned, sends}

abbrev pub is_well_formed : {V : Type 0} → Metric V → Bool
is_well_formed m = length m.labels == length m.desc.labels

abbrev pub are_well_formed : {V : Type 0} → List (Metric V) → Bool
are_well_formed ms = all is_well_formed ms

pub all-Mem :
    {A : Type 0} (p : A → Bool) {x : A} (xs : List A) → all p xs ≡ true → Memᴰ x xs → p x ≡ true
all-Mem p [] h i = elim i [ ]
all-Mem p (y ∷ ys) h (Memᴰ.head e) = ap p e ∙ (both (p y) (all p ys) h).0
all-Mem p (y ∷ ys) h (Memᴰ.tail i) = all-Mem p ys (both (p y) (all p ys) h).1 i

pub IsWellFormed-Mem :
    {V : Type 0} (ms : List (Metric V)) (m : Metric V)
    → are_well_formed ms ≡ true
    → Memᴰ m ms
    → IsWellFormed m
IsWellFormed-Mem ms m h i =
    (==_iff (length m.labels) (length m.desc.labels)).0 (all-Mem is_well_formed ms h i)

-- Whatever the order in which they are received.
pub all-Received :
    {A : Type 0} (p : A → Bool) (outs : List (List A)) (sent : List A)
    → Received outs sent
    → all (all p) outs ≡ true
    → all p sent ≡ true
all-Received p _ _ closed h = refl
all-Received p _ sent (returned {outs} r) h = all-Received p outs sent r h
all-Received p _ _ (sends before x xs after {sent} r) h =
    let (h1, h2) = all-split (all p) before ((x ∷ xs) ∷ after) h in
    let (h3, h4) = both (all p (x ∷ xs)) (all (all p) after) h2 in
    let (h5, h6) = both (p x) (all p xs) h3 in
    rw h5 (all-Received p _ sent r (all-append (all p) before (xs ∷ after) h1 (rw h6 h4)))

module _ {V : Type 0} (gv : GaugeVecs V) where
  -- All series of a vector have so many label values.
  abbrev pub Fits : ℕ → gv.Vec → Type 0
  Fits n v = (ls : List String) (x : V) → gv.get v ls ≡ some x → length ls ≡ n

  pub new-Fits : (n : ℕ) → Fits n gv.new
  new-Fits n ls x h = let q : none ≡ some x = sym (gv.get-new ls) ∙ h in cc

  pub reset-Fits : (n : ℕ) (v : gv.Vec) → Fits n (gv.reset v)
  reset-Fits n v ls x h = let q : none ≡ some x = sym (gv.get-reset v ls) ∙ h in cc

  pub set-Fits :
      (n : ℕ) (v : gv.Vec) (ls : List String) (x : V)
      → length ls ≡ n
      → Fits n v
      → Fits n (gv.set v ls x)
  set-Fits n v ls x e fits ks y h = elim (Bool-cases (beq ls ks)) [
    | inl q ↦ ap length (sym ((strings_eq.beq_iff ls ks).0 q)) ∙ e
    | inr q ↦ fits ks y (sym (rw q at (gv.get-set v ls ks x)) ∙ h)
  ]

  lookup-Mem :
      (ls : List String) (x : V) (xs : List (List String × V))
      → Memᴰ (ls, x) xs
      → (y : V) × (lookup ls xs ≡ some y)
  unfolding lookup
  lookup-Mem ls x [] i = elim i [ ]
  lookup-Mem ls x ((ks, z) ∷ xs) (Memᴰ.head e) =
      (z, rw ((strings_eq.beq_iff ks ls).1 (sym (ap (λ r. r.0) e))) refl)
  lookup-Mem ls x ((ks, z) ∷ xs) (Memᴰ.tail i) = elim (Bool-cases (beq ks ls)) [
    | inl q ↦ (z, rw q refl)
    | inr q ↦ let (y, h) = lookup-Mem ls x xs i in (y, rw q h)
  ]

  listed-are_well_formed :
      (d : Desc) (kind : Kind) (xs : List (List String × V))
      → ((ls : List String) (x : V) → Memᴰ (ls, x) xs → length ls ≡ length d.labels)
      → are_well_formed
          (map (λ (ls, x). record { desc = d; kind = kind; value = x; labels = ls }) xs)
        ≡ true
  listed-are_well_formed d kind [] h = refl
  listed-are_well_formed d kind ((ls, x) ∷ xs) h =
      rw ((==_iff (length ls) (length d.labels)).1 (h ls x (Memᴰ.head refl)))
        (listed-are_well_formed d kind xs (λ ks y i. h ks y (Memᴰ.tail i)))

  pub metrics_of-Fits :
      (d : Desc) (kind : Kind) (v : gv.Vec)
      → Fits (length d.labels) v
      → are_well_formed (metrics_of gv d kind v) ≡ true
  metrics_of-Fits d kind v fits = listed-are_well_formed d kind (gv.listed v) (λ ls x i.
      let (y, h) = lookup-Mem ls x (gv.listed v) i in fits ls y (sym (gv.lookup-listed v ls) ∙ h))
