-- ===== src/Osd/Collector/Owners.antt =====
-- Which of the goroutines of `Collect` of ceph/osd.go writes to which gauges.
use ceph_exporter.Base.{
  both, all-append, ℕ, String, length, ◌≡◌, refl, sym, ap, Bool, true, false, ◌&&◌, Option, none,
  some, List, [], ◌∷◌, all, leb, ◌==◌, ==_iff, if◌then◌else◌, Bool-cases, inl, inr,
}
use ceph_exporter.Float.{Float64, parse}
use ceph_exporter.Osd.Writes.{
  OsdGauge, desc, index, same, Write, Ending, going, returned, failed, Run, ◌>>◌, set_number,
  number,
}
use ceph_exporter.Osd.Collector.Interleavings.{is_quiet}

-- The goroutine that writes to the gauge with the number: those of `osd perf`, `osd metadata`,
-- `osd dump` and `osd df` in this order, or none of them.
abbrev pub owner : ℕ → ℕ
owner i =
    if i == 9
    then 2
    else if leb i 13
    then 3
    else if leb i 15
    then 0
    else if i == 18
    then 1
    else if leb i 24
    then 2
    else 4

-- The gauge is the goroutine's, and has as many labels as there are values.
abbrev is_owned_by : ℕ → OsdGauge → List String → Bool
is_owned_by n g ls = owner (index g) == n && length ls == length (desc g).labels

same-owner : (g h : OsdGauge) → same g h ≡ true → owner (index g) ≡ owner (index h)
unfolding same
same-owner g h e = ap owner ((==_iff (index g) (index h)).0 e)

module _ {V : Type 0} where
  -- The write has as many label values as its gauge has labels.
  unfoldable pub is_fitting : Write V → Bool
  is_fitting w = length w.labels == length (desc w.gauge).labels

  -- The write is to a gauge of the goroutine, with as many label values as the gauge has labels.
  unfoldable pub is_owned : ℕ → Write V → Bool
  is_owned n w = is_owned_by n w.gauge w.labels

  pub is_quiet-is_owned :
      (g : OsdGauge) (n : ℕ) (ws : List (Write V))
      → all (is_owned n) ws ≡ true
      → (owner (index g) == n) ≡ false
      → is_quiet g ws ≡ true
  unfolding is_quiet is_owned
  is_quiet-is_owned g n [] o other = refl
  is_quiet-is_owned g n (w ∷ ws) o other =
      let (here, rest) = both (is_owned n w) (all (is_owned n) ws) o in
      let (mine, _) =
        both (owner (index w.gauge) == n) (length w.labels == length (desc w.gauge).labels) here in
      elim (Bool-cases (same w.gauge g)) [
        | inl e ↦ cc (sym (ap (λ i. i == n) (same-owner w.gauge g e)))
        | inr e ↦ rw e (is_quiet-is_owned g n ws rest other)
      ]

  -- A run all of whose writes are those of one goroutine.
  unfoldable pub IsOwned : ℕ → Run V → Type 0
  IsOwned n r = all (is_owned n) r.0 ≡ true

  pub >>-IsOwned : (n : ℕ) (r r' : Run V) → IsOwned n r → IsOwned n r' → IsOwned n (r >> r')
  unfolding IsOwned
  >>-IsOwned n (ws, going) (ws', e) h k = all-append (is_owned n) ws ws' h k
  >>-IsOwned n (ws, returned) r' h k = h
  >>-IsOwned n (ws, failed) r' h k = h

module _ (fl : Float64) where
  open fl use {Value}

  pub number-IsOwned :
      (n : ℕ) (on_error : Ending) (g : OsdGauge) (ls : List String) (f : Value → Value)
      (text : String)
      → is_owned_by n g ls ≡ true
      → IsOwned n (number fl on_error g ls f text)
  unfolding IsOwned is_owned
  number-IsOwned n on_error g ls f text h = go (parse fl text)
    where
      go : (o : Option Value) → all (is_owned n) (set_number fl on_error g ls f o).0 ≡ true
      go none = refl
      go (some x) = rw h refl

  pub then_number-IsOwned :
      (n : ℕ) (r : Run Value) (on_error : Ending) (g : OsdGauge) (ls : List String)
      (f : Value → Value) (text : String)
      → IsOwned n r
      → is_owned_by n g ls ≡ true
      → IsOwned n (r >> number fl on_error g ls f text)
  then_number-IsOwned n r on_error g ls f text h e =
      >>-IsOwned n r (number fl on_error g ls f text) h (number-IsOwned n on_error g ls f text e)
