-- ===== src/Osd/Scrub.antt =====
-- `collectOSDScrubState` of ceph/osd.go: which OSDs take part in a scrub.
use ceph_exporter.Base.{
  ℕ, String, ◌≡◌, refl, ap, ◌∙◌, Bool, true, false, Option, none, some, List, [], ◌∷◌, ℤ, Text,
  codes, contains, int_eq, beq, lookup, insert, lookup-insert, arith, if◌then◌else◌, Bool-cases,
  inl, inr,
}
use mathlib.Core.Option

-- scrubStateIdle, scrubStateScrubbing, scrubStateDeepScrubbing
abbrev pub idle : ℕ
idle = 0

abbrev pub scrubbing : ℕ
scrubbing = 1

abbrev pub deep_scrubbing : ℕ
deep_scrubbing = 2

-- A placement group of the reply of `ceph pg dump pgs_brief`.
pub record PgStat : Type 0 where
  pub pgid : String
  pub acting_primary : ℤ
  pub acting : List ℤ
  pub state : String

-- The state that a placement group puts its OSDs in, if it is being scrubbed.
unfoldable pub scrub_state : Text → Option ℕ
scrub_state state =
    if contains (codes "scrubbing") state
    then some (if contains (codes "deep") state then deep_scrubbing else scrubbing)
    else none

abbrev pub Cache : Type 0
Cache = List (ℤ × ℕ)

-- All that were seen before are idle.
unfoldable pub reset : Cache → Cache
reset [] = []
reset ((osd, state) ∷ rest) = (osd, idle) ∷ reset rest

unfoldable pub mark : ℕ → Cache → List ℤ → Cache
mark state cache [] = cache
mark state cache (osd ∷ osds) = mark state (insert osd state cache) osds

abbrev pub mark_pg : Option ℕ → Cache → List ℤ → Cache
mark_pg none cache osds = cache
mark_pg (some state) cache osds = mark state cache osds

unfoldable pub mark_all : Cache → List PgStat → Cache
unfolding mark
mark_all cache [] = cache
mark_all cache (pg ∷ pgs) = mark_all (mark_pg (scrub_state (codes pg.state)) cache pg.acting) pgs

-- One collection, with the dump: the new cache, which is sent whole.
unfoldable pub update : Cache → List PgStat → Cache
unfolding reset mark_all
update cache pgs = mark_all (reset cache) pgs

unfoldable pub mem : ℤ → List ℤ → Bool
mem osd [] = false
mem osd (x ∷ xs) = if beq x osd then true else mem osd xs

-- The state of the last group in the dump that is scrubbed and has the OSD among its acting ones.
unfoldable pub last_scrub : ℤ → Option ℕ → List PgStat → Option ℕ
last_scrub osd found [] = found
last_scrub osd found (pg ∷ pgs) =
    last_scrub osd
      (if mem osd pg.acting then Option.or_else (scrub_state (codes pg.state)) found else found) pgs

-- An OSD that is in the cache is idle in a new one, and no other is in it.
lookup-reset :
    (osd : ℤ) (cache : Cache) → lookup osd (reset cache) ≡ Option.map (λ _. idle) (lookup osd cache)
unfolding reset lookup
lookup-reset osd [] = refl
lookup-reset osd ((i, s) ∷ rest) = ground (arith, lookup-reset osd rest)

lookup-mark :
    (osd : ℤ) (state : ℕ) (cache : Cache) (osds : List ℤ)
    → lookup osd (mark state cache osds) ≡ (if mem osd osds then some state else lookup osd cache)
unfolding mark mem lookup
lookup-mark osd state cache [] = refl
lookup-mark osd state cache (x ∷ xs) =
    ground (arith, lookup-mark osd state (insert x state cache) xs, lookup-insert x osd state cache)

lookup-mark_pg :
    (osd : ℤ) (scrub : Option ℕ) (cache : Cache) (osds : List ℤ)
    → lookup osd (mark_pg scrub cache osds)
      ≡ (if mem osd osds then Option.or_else scrub (lookup osd cache) else lookup osd cache)
unfolding Option.or_else lookup
lookup-mark_pg osd none cache osds = elim (Bool-cases (mem osd osds)) [
  | inl among ↦ rw among refl
  | inr other ↦ rw other refl
]
lookup-mark_pg osd (some state) cache osds = lookup-mark osd state cache osds

lookup-mark_all :
    (osd : ℤ) (cache : Cache) (pgs : List PgStat)
    → lookup osd (mark_all cache pgs) ≡ last_scrub osd (lookup osd cache) pgs
unfolding mark_all last_scrub lookup
lookup-mark_all osd cache [] = refl
lookup-mark_all osd cache (pg ∷ pgs) =
    let scrub = scrub_state (codes pg.state) in
    lookup-mark_all osd (mark_pg scrub cache pg.acting) pgs
    ∙ ap (λ f. last_scrub osd f pgs) (lookup-mark_pg osd scrub cache pg.acting)

-- After a collection an OSD has the scrub state of the last placement group in the dump that is
-- being scrubbed and has the OSD among its acting ones. Where there is no such group the OSD is
-- idle if it was in the cache before, and is not reported if it was not.
pub update-last_scrub :
    (osd : ℤ) (cache : Cache) (pgs : List PgStat)
    → lookup osd (update cache pgs) ≡ last_scrub osd (Option.map (λ _. idle) (lookup osd cache)) pgs
unfolding update
update-last_scrub osd cache pgs =
    lookup-mark_all osd (reset cache) pgs ∙ ap (λ f. last_scrub osd f pgs) (lookup-reset osd cache)
