-- ===== src/Osd/Inactive.antt =====
-- `oldestInactivePGLoop` of ceph/osd.go: for how long the placement group that has been inactive
-- for the longest time has been so. A time is a number of nanoseconds since the epoch.
pub mod Oldest
use ceph_exporter.Base.{
  ℕ, String, ◌≡◌, refl, sym, ap, ◌∙◌, ◌+◌, ◌-◌, ◌/◌, ◌≤◌, Bool, true, false, Option, none, some,
  List, [], ◌∷◌, ◌++◌, map, codes, contains, string_eq, beq, eq_iff, lookup, insert, delete,
  lookup-insert, lookup-delete, arith, if◌then◌else◌, ltb, Bool-cases, inl, inr, ◌≢◌, ◌⊎◌,
}
use ceph_exporter.Osd.Scrub.{PgStat}

abbrev pub Tracked : Type 0
Tracked = List (String × ℕ)

abbrev pub is_active : PgStat → Bool
is_active pg = contains (codes "active") (codes pg.state)

-- The time since which a group that is inactive now has been known to be so.
abbrev pub since : ℕ → Option ℕ → ℕ
since now none = now
since now (some t) = t

abbrev pub track_new : ℕ → String → Option ℕ → Tracked → Tracked
track_new now id none m = insert id now m
track_new now id (some t) m = m

abbrev pub earlier : ℕ → ℕ → ℕ
earlier t oldest = if ltb t oldest then t else oldest

-- The loop over the groups of a dump: the map and the oldest time.
unfoldable pub visit : ℕ → Tracked → ℕ → List PgStat → Tracked × ℕ
visit now m oldest [] = (m, oldest)
visit now m oldest (pg ∷ pgs) =
    let active = visit now (delete pg.pgid m) oldest pgs in
    let found = lookup pg.pgid m in
    let inactive =
      visit now (track_new now pg.pgid found m) (earlier (since now found) oldest) pgs in
    if is_active pg then active else inactive

-- t.Unix()
abbrev pub unix : ℕ → ℕ
unix t = t / 1000000000

-- One round of the loop with a dump: the map, and the value of the gauge.
unfoldable pub round : ℕ → Tracked → List PgStat → Tracked × ℕ
round now m pgs = let (m', oldest) = visit now m now pgs in (m', unix now - unix oldest)

-- The rounds, of which one without a dump changes nothing.
unfoldable pub rounds : Tracked → List (ℕ × Option (List PgStat)) → Tracked
rounds m [] = m
rounds m ((now, none) ∷ rest) = rounds m rest
rounds m ((now, some pgs) ∷ rest) = rounds (round now m pgs).0 rest

-- What one group has been through: since when it is inactive, if it is.
abbrev pub step : ℕ → Bool → Option ℕ → Option ℕ
step now true t = none
step now false t = some (since now t)

unfoldable pub history : ℕ → String → Option ℕ → List PgStat → Option ℕ
history now id t [] = t
history now id t (pg ∷ pgs) =
    history now id (if beq pg.pgid id then step now (is_active pg) t else t) pgs

unfoldable pub histories : String → Option ℕ → List (ℕ × Option (List PgStat)) → Option ℕ
histories id t [] = t
histories id t ((now, none) ∷ rest) = histories id t rest
histories id t ((now, some pgs) ∷ rest) = histories id (history now id t pgs) rest

track_new_lem :
    (now : ℕ) (id key : String) (m : Tracked) (found : Option ℕ)
    → lookup key m ≡ found
    → lookup id (track_new now key found m)
      ≡ (if beq key id then some (since now found) else lookup id m)
track_new_lem now id key m none e = lookup-insert key id now m
track_new_lem now id key m (some t) e = elim (Bool-cases (beq key id)) [
  | inl same ↦ rw same (ap (λ k. lookup k m) (sym ((eq_iff key id).0 same)) ∙ e)
  | inr other ↦ rw other refl
]

pub lookup-track_new :
    (now : ℕ) (id key : String) (m : Tracked)
    → lookup id (track_new now key (lookup key m) m)
      ≡ (if beq key id then step now false (lookup id m) else lookup id m)
lookup-track_new now id key m = elim (Bool-cases (beq key id)) [
  | inl same ↦
      track_new_lem now id key m (lookup key m) refl
      ∙ rw same (ap (λ k. some (since now (lookup k m))) ((eq_iff key id).0 same))
  | inr other ↦ track_new_lem now id key m (lookup key m) refl ∙ rw other refl
]

lookup-visit :
    (now : ℕ) (id : String) (m : Tracked) (oldest : ℕ) (pgs : List PgStat)
    → lookup id (visit now m oldest pgs).0 ≡ history now id (lookup id m) pgs
unfolding visit history lookup
lookup-visit now id m oldest [] = refl
lookup-visit now id m oldest (pg ∷ pgs) = elim (Bool-cases (is_active pg)) [
  | inl active ↦ rw active (
      lookup-visit now id (delete pg.pgid m) oldest pgs
      ∙ ap (λ t. history now id t pgs) (lookup-delete pg.pgid id m))
  | inr idle ↦ rw idle (
      lookup-visit now id (track_new now pg.pgid (lookup pg.pgid m) m)
        (earlier (since now (lookup pg.pgid m)) oldest) pgs
      ∙ ap (λ t. history now id t pgs) (lookup-track_new now id pg.pgid m))
]

lookup-round :
    (now : ℕ) (id : String) (m : Tracked) (pgs : List PgStat)
    → lookup id (round now m pgs).0 ≡ history now id (lookup id m) pgs
unfolding round
lookup-round now id m pgs = lookup-visit now id m now pgs

-- After any rounds of the loop, with and without a dump, a placement group is tracked exactly when
-- the last dump that names it says that it is inactive, and then since the first round of the
-- unbroken run of such entries of its own.
pub rounds-histories :
    (id : String) (m : Tracked) (rs : List (ℕ × Option (List PgStat)))
    → lookup id (rounds m rs) ≡ histories id (lookup id m) rs
unfolding rounds histories
rounds-histories id m [] = refl
rounds-histories id m ((now, none) ∷ rest) = rounds-histories id m rest
rounds-histories id m ((now, some pgs) ∷ rest) =
    rounds-histories id (round now m pgs).0 rest
    ∙ ap (λ t. histories id t rest) (lookup-round now id m pgs)
