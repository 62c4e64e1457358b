-- ===== src/Osd/Collector/Interleavings.antt =====
-- The goroutines of `Collect` of ceph/osd.go write to gauges of their own, so the order in which
-- their writes happen does not show.
use ceph_exporter.Base.{
  String, ◌≡◌, refl, sym, ap, ◌∙◌, Bool, true, false, not, ◌&&◌, Option, some, List, [], ◌∷◌, ◌++◌,
  beq, strings_eq, if◌then◌else◌, Bool-cases, inl, inr, arith, both,
}
use ceph_exporter.Float.{Float64}
use ceph_exporter.Prometheus.{GaugeVecs}
use ceph_exporter.Exporter.Interleaving.{Received, closed, returned, sends, concat}
use ceph_exporter.Osd.Writes.{OsdGauge, same, Write, Vecs, apply, apply_all}

module _ {V : Type 0} where
  -- The value that is last written to a series, or else what was there before.
  unfoldable pub last_write : OsdGauge → List String → Option V → List (Write V) → Option V
  last_write g ls found [] = found
  last_write g ls found (w ∷ ws) =
      last_write g ls (if same w.gauge g && beq w.labels ls then some w.value else found) ws

  pub last_write-append :
      (g : OsdGauge) (ls : List String) (found : Option V) (ws ws' : List (Write V))
      → last_write g ls found (ws ++ ws') ≡ last_write g ls (last_write g ls found ws) ws'
  unfolding last_write
  last_write-append g ls found [] ws' = refl
  last_write-append g ls found (w ∷ ws) ws' =
      last_write-append g ls (if same w.gauge g && beq w.labels ls then some w.value else found) ws
        ws'

  -- No write is to the gauge.
  unfoldable pub is_quiet : OsdGauge → List (Write V) → Bool
  is_quiet g [] = true
  is_quiet g (w ∷ ws) = not (same w.gauge g) && is_quiet g ws

  unfoldable pub are_quiet : OsdGauge → List (List (Write V)) → Bool
  unfolding is_quiet
  are_quiet g [] = true
  are_quiet g (ws ∷ rest) = is_quiet g ws && are_quiet g rest

  -- At most one of the lists writes to the gauge.
  unfoldable pub has_one_writer : OsdGauge → List (List (Write V)) → Bool
  unfolding is_quiet are_quiet
  has_one_writer g [] = true
  has_one_writer g (ws ∷ rest) = if is_quiet g ws then has_one_writer g rest else are_quiet g rest

  quiet_cons :
      (g : OsdGauge) (w : Write V) (ws : List (Write V))
      → is_quiet g (w ∷ ws) ≡ true
      → (same w.gauge g ≡ false) × (is_quiet g ws ≡ true)
  unfolding is_quiet
  quiet_cons g w ws q = ground arith

  pub last_write-is_quiet :
      (g : OsdGauge) (ls : List String) (found : Option V) (ws : List (Write V))
      → is_quiet g ws ≡ true
      → last_write g ls found ws ≡ found
  unfolding last_write is_quiet
  last_write-is_quiet g ls found [] q = refl
  last_write-is_quiet g ls found (w ∷ ws) q =
      let (other, rest) = quiet_cons g w ws q in rw other (last_write-is_quiet g ls found ws rest)

  last_write-are_quiet :
      (g : OsdGauge) (ls : List String) (found : Option V) (outs : List (List (Write V)))
      → are_quiet g outs ≡ true
      → last_write g ls found (concat outs) ≡ found
  unfolding are_quiet last_write
  last_write-are_quiet g ls found [] q = refl
  last_write-are_quiet g ls found (ws ∷ rest) q =
      let (here, there) = both (is_quiet g ws) (are_quiet g rest) q in
      last_write-append g ls found ws (concat rest)
      ∙ ap (λ o. last_write g ls o (concat rest)) (last_write-is_quiet g ls found ws here)
      ∙ last_write-are_quiet g ls found rest there

  are_quiet-middle :
      (g : OsdGauge) (before : List (List (Write V))) (w : Write V) (ws : List (Write V))
      (after : List (List (Write V)))
      → are_quiet g (before ++ ((w ∷ ws) ∷ after)) ≡ true
      → (same w.gauge g ≡ false) × (are_quiet g (before ++ (ws ∷ after)) ≡ true)
  unfolding are_quiet is_quiet
  are_quiet-middle g [] w ws after q = ground arith
  are_quiet-middle g (b ∷ before) w ws after q =
      ground (arith, are_quiet-middle g before w ws after)

  are_quiet-has_one_writer :
      (g : OsdGauge) (outs : List (List (Write V)))
      → are_quiet g outs ≡ true
      → has_one_writer g outs ≡ true
  unfolding are_quiet has_one_writer
  are_quiet-has_one_writer g [] q = refl
  are_quiet-has_one_writer g (ws ∷ rest) q = ground (arith, are_quiet-has_one_writer g rest)

  has_one_writer-middle :
      (g : OsdGauge) (before : List (List (Write V))) (w : Write V) (ws : List (Write V))
      (after : List (List (Write V)))
      → has_one_writer g (before ++ ((w ∷ ws) ∷ after)) ≡ true
      → has_one_writer g (before ++ (ws ∷ after)) ≡ true
  unfolding has_one_writer is_quiet
  has_one_writer-middle g [] w ws after q = ground (arith, are_quiet-has_one_writer g after)
  has_one_writer-middle g (b ∷ before) w ws after q =
      ground
        (arith, has_one_writer-middle g before w ws after, are_quiet-middle g before w ws after)

  abbrev hit : OsdGauge → List String → Option V → Write V → Option V
  hit g ls found w = if same w.gauge g && beq w.labels ls then some w.value else found

  -- A write that is made first among those of its goroutine may as well be made first of all.
  last_write-middle :
      (g : OsdGauge) (ls : List String) (found : Option V) (before : List (List (Write V)))
      (w : Write V) (ws : List (Write V)) (after : List (List (Write V)))
      → has_one_writer g (before ++ ((w ∷ ws) ∷ after)) ≡ true
      → last_write g ls (hit g ls found w) (concat (before ++ (ws ∷ after)))
        ≡ last_write g ls found (concat (before ++ ((w ∷ ws) ∷ after)))
  unfolding last_write has_one_writer
  last_write-middle g ls found [] w ws after q = refl
  last_write-middle g ls found (b ∷ before) w ws after q = elim (Bool-cases (is_quiet g b)) [
    | inl quiet ↦
        skip (hit g ls found w) (concat (before ++ (ws ∷ after))) quiet
        ∙ last_write-middle g ls found before w ws after (rw quiet at q)
        ∙ sym (skip found (concat (before ++ ((w ∷ ws) ∷ after))) quiet)
    | inr loud ↦
        let (other, rest) = are_quiet-middle g before w ws after (rw loud at q) in
        ap (λ o. last_write g ls o (b ++ concat (before ++ (ws ∷ after)))) (rw other refl)
        ∙ only (concat (before ++ (ws ∷ after)))
            (λ o. last_write-are_quiet g ls o (before ++ (ws ∷ after)) rest)
        ∙ sym (
            only (concat (before ++ ((w ∷ ws) ∷ after)))
              (λ o. last_write-are_quiet g ls o (before ++ ((w ∷ ws) ∷ after)) (rw loud at q)))
  ]
    where
      skip :
          (o : Option V) (more : List (Write V))
          → is_quiet g b ≡ true
          → last_write g ls o (b ++ more) ≡ last_write g ls o more
      skip o more quiet =
          last_write-append g ls o b more
          ∙ ap (λ p. last_write g ls p more) (last_write-is_quiet g ls o b quiet)

      only :
          (more : List (Write V))
          → ((o : Option V) → last_write g ls o more ≡ o)
          → last_write g ls found (b ++ more) ≡ last_write g ls found b
      only more h = last_write-append g ls found b more ∙ h (last_write g ls found b)

  -- However the writes interleave, what a series shows is what it would show if the goroutines ran
  -- one after the other.
  pub last_write-Received :
      (g : OsdGauge) (ls : List String) (found : Option V) (outs : List (List (Write V)))
      (ws : List (Write V))
      → Received outs ws
      → has_one_writer g outs ≡ true
      → last_write g ls found ws ≡ last_write g ls found (concat outs)
  unfolding last_write has_one_writer is_quiet
  last_write-Received g ls found _ _ closed q = refl
  last_write-Received g ls found _ _ (returned r) q = last_write-Received g ls found _ _ r q
  last_write-Received g ls found _ _ (sends before w ws after r) q =
      last_write-Received g ls (hit g ls found w) _ _ r
        (has_one_writer-middle g before w ws after q)
      ∙ last_write-middle g ls found before w ws after q

module _ (fl : Float64) (gv : GaugeVecs fl.Value) where
  pub get-apply_all :
      (g : OsdGauge) (ls : List String) (ws : List (Write fl.Value)) (vecs : Vecs fl gv)
      → gv.get (apply_all fl gv ws vecs g) ls ≡ last_write g ls (gv.get (vecs g) ls) ws
  unfolding apply_all last_write
  get-apply_all g ls [] vecs = refl
  get-apply_all g ls (w ∷ ws) vecs =
      get-apply_all g ls ws (apply fl gv w vecs)
      ∙ ap (λ o. last_write g ls o ws) (get-apply g ls w vecs)
    where
      get-apply :
          (g : OsdGauge) (ls : List String) (w : Write fl.Value) (vecs : Vecs fl gv)
          → gv.get (apply fl gv w vecs g) ls
            ≡ (if same w.gauge g && beq w.labels ls then some w.value else gv.get (vecs g) ls)
      get-apply g ls w vecs = elim (Bool-cases (same w.gauge g)) [
        | inl e ↦ rw (e, apply) (gv.get-set (vecs g) w.labels ls w.value)
        | inr e ↦ rw (e, apply) refl
      ]
