-- ===== src/Osd/Inactive/Oldest.antt =====
-- `oldestInactivePGLoop` of ceph/osd.go: the value of the gauge after a round.
use ceph_exporter.Base.{
  ℕ, String, ◌≡◌, refl, ap, ◌∙◌, ◌-◌, ◌≤◌, false, List, [], ◌∷◌, string_eq, beq, lookup, delete,
  lookup-delete, arith, if◌then◌else◌, ltb, Bool-cases, inl, inr, ◌≢◌, ◌⊎◌,
}
use ceph_exporter.Osd.Scrub.{PgStat}
use ceph_exporter.Osd.Inactive.{
  Tracked, is_active, since, track_new, earlier, visit, unix, round, lookup-track_new,
}

-- The entries of a dump are for different groups.
abbrev Others : String → List PgStat → Type 0
Others id [] = Unit
Others id (pg ∷ pgs) = (beq id pg.pgid ≡ false) × Others id pgs

abbrev pub IsDump : List PgStat → Type 0
IsDump [] = Unit
IsDump (pg ∷ pgs) = Others pg.pgid pgs × IsDump pgs

-- The times at which the inactive groups of the dump were first seen so.
unfoldable pub times : ℕ → Tracked → List PgStat → List ℕ
times now m [] = []
times now m (pg ∷ pgs) =
    let rest = times now m pgs in if is_active pg then rest else since now (lookup pg.pgid m) ∷ rest

unfoldable pub minimum : ℕ → List ℕ → ℕ
minimum t [] = t
minimum t (x ∷ xs) = minimum (earlier x t) xs

Agree : Tracked → Tracked → List PgStat → Type 0
Agree m m' [] = Unit
Agree m m' (pg ∷ pgs) = (lookup pg.pgid m' ≡ lookup pg.pgid m) × Agree m m' pgs

Agree-delete :
    (m m' : Tracked) (id : String) (pgs : List PgStat)
    → Others id pgs
    → Agree m m' pgs
    → Agree m (delete id m') pgs
unfolding Agree
Agree-delete m m' id [] o h = tt
Agree-delete m m' id (pg ∷ pgs) (d, o) (e, h) =
    (lookup-delete id pg.pgid m' ∙ rw d e, Agree-delete m m' id pgs o h)

Agree-track_new :
    (now : ℕ) (m m' : Tracked) (id : String) (pgs : List PgStat)
    → Others id pgs
    → Agree m m' pgs
    → Agree m (track_new now id (lookup id m') m') pgs
unfolding Agree
Agree-track_new now m m' id [] o h = tt
Agree-track_new now m m' id (pg ∷ pgs) (d, o) (e, h) =
    (lookup-track_new now pg.pgid id m' ∙ rw d e, Agree-track_new now m m' id pgs o h)

visit-minimum :
    (now : ℕ) (m m' : Tracked) (oldest : ℕ) (pgs : List PgStat)
    → IsDump pgs
    → Agree m m' pgs
    → (visit now m' oldest pgs).1 ≡ minimum oldest (times now m pgs)
unfolding visit times minimum Agree
visit-minimum now m m' oldest [] d h = refl
visit-minimum now m m' oldest (pg ∷ pgs) (o, d) (e, h) = elim (Bool-cases (is_active pg)) [
  | inl active ↦
      rw active
        (visit-minimum now m (delete pg.pgid m') oldest pgs d (Agree-delete m m' pg.pgid pgs o h))
  | inr idle ↦ rw idle (
      visit-minimum now m (track_new now pg.pgid (lookup pg.pgid m') m')
        (earlier (since now (lookup pg.pgid m')) oldest) pgs d
        (Agree-track_new now m m' pg.pgid pgs o h)
      ∙ ap (λ f. minimum (earlier (since now f) oldest) (times now m pgs)) e)
]

Agree-refl : (m : Tracked) (pgs : List PgStat) → Agree m m pgs
unfolding Agree
Agree-refl m [] = tt
Agree-refl m (pg ∷ pgs) = (refl, Agree-refl m pgs)

-- Each number of the list is at least `t`.
unfoldable pub Least : ℕ → List ℕ → Type 0
Least t [] = Unit
Least t (x ∷ xs) = (t ≤ x) × Least t xs

unfoldable pub Among : ℕ → List ℕ → Type 0
Among t [] = t ≢ t
Among t (x ∷ xs) = (t ≡ x) ⊎ Among t xs

minimum_le : (t : ℕ) (xs : List ℕ) → minimum t xs ≤ t
unfolding minimum
minimum_le t [] = omega arith
minimum_le t (x ∷ xs) = grind (arith, minimum_le (earlier x t) xs)

minimum-Least : (t : ℕ) (xs : List ℕ) → Least (minimum t xs) xs
unfolding minimum Least
minimum-Least t [] = tt
minimum-Least t (x ∷ xs) =
    (grind (arith, minimum_le (earlier x t) xs), minimum-Least (earlier x t) xs)

minimum-Among : (t : ℕ) (xs : List ℕ) → (minimum t xs ≡ t) ⊎ Among (minimum t xs) xs
unfolding minimum Among
minimum-Among t [] = inl refl
minimum-Among t (x ∷ xs) = elim (minimum-Among (earlier x t) xs) [
  | inl e ↦ elim (Bool-cases (ltb x t)) [
    | inl lower ↦ inr (inl (e ∙ rw lower refl))
    | inr upper ↦ inl (e ∙ rw upper refl)
  ]
  | inr h ↦ inr (inr h)
]

-- The value of the gauge after a round with a dump that lists no group twice is the time between
-- now and the oldest of the times since which the inactive groups of the dump have been tracked,
-- in Unix seconds; a group that was not tracked before counts from now, and so does a dump in which
-- every group is active.
pub round_oldest :
    (now : ℕ) (m : Tracked) (pgs : List PgStat)
    → IsDump pgs
    → (t : ℕ) × ((round now m pgs).1 ≡ unix now - unix t)
      × (t ≤ now)
      × Least t (times now m pgs)
      × ((t ≡ now) ⊎ Among t (times now m pgs))
unfolding round
round_oldest now m pgs d =
    let ts = times now m pgs in
    (
      minimum now ts,
      ap (λ t. unix now - unix t) (visit-minimum now m m now pgs d (Agree-refl m pgs)),
      minimum_le now ts,
      minimum-Least now ts,
      minimum-Among now ts,
    )
