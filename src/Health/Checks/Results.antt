-- ===== src/Health/Checks/Results.antt =====
-- ceph/health.go: the gauge of the interpreter and the legacy gauges of the flags, after the checks.
use ceph_exporter.Base.{
  ℕ, String, ◌≡◌, refl, sym, ap, ◌∙◌, ◌⊎◌, inl, inr, Bool, true, false, ◌&&◌, ◌||◌, Option, none,
  some, List, [], ◌∷◌, lookup, insert, beq, string_eq, string_beq, codes, arith, Bool-cases,
  Option-cases,
}
use mathlib.Core.List.{Perm, Permᴰ}
use mathlib.Core.List.Permᴰ.{nil, cons, swap, trans}
use mathlib.Core.Logic.{∥∥₁_elim}
use mathlib.Core.Bool.{Bool-set}
use mathlib.Core.Option.{some-injective}
use ceph_exporter.Base.{◌==◌, ==_iff}
use mathlib.Core.Path.{subst}
use ceph_exporter.Float.{Float64, of_count}
use ceph_exporter.Version.{Version, is_at_least, pacific}
use ceph_exporter.Health.KnownChecks.{known_checks}
use ceph_exporter.Health.Progress.{Progress, Outcome, going, failed, panicked, ◌>>=◌, reached}
use ceph_exporter.Health.Checks.{
  set_status, read_message, extended, interpreted, interpret, read_check, read_checks,
}
use ceph_exporter.Health.Checks.Laws.{
  grade, grade-extended, listed, names, is_raised, or-swap, last_grade, raised_gauge,
  raised_gauge-or, read_message-Keeps,
}

pub >>=-eq-going :
    {P : Type 0} (first : Outcome P) (next : P → Outcome P) {b : P}
    → (first >>= next) ≡ going b
    → (a : P) × (first ≡ going a) × (next a ≡ going b)
>>=-eq-going (going a) next h = (a, refl, h)
>>=-eq-going (failed a) next h = cc
>>=-eq-going (panicked a) next h = cc

abbrev is_some : Option ℕ → Bool
is_some none = false
is_some (some n) = true

-- The table of the known checks at some time in the life of the program: as the collector is made with
-- it, and then extended for the version at each check that is read.
pub data IsTable : List (String × ℕ) → Type 0 where
  made : IsTable known_checks
  renewed :
      {table : List (String × ℕ)} (version : Version)
      → IsTable table
      → IsTable (extended version table)

-- Some of the checks is in the table.
unfoldable pub any_known : Version → List (String × ℕ) → List (String × String) → Bool
any_known version table [] = false
any_known version table ((key, message) ∷ rest) =
    is_some (grade version table key) || any_known version table rest

any_known-Permᴰ :
    (version : Version) (table : List (String × ℕ)) {cs ds : List (String × String)}
    → Permᴰ cs ds
    → any_known version table cs ≡ any_known version table ds
unfolding any_known
any_known-Permᴰ version table nil = refl
any_known-Permᴰ version table (cons {a} {b} {l₁} {l₂} e p) =
    let rest = any_known-Permᴰ version table p in
    ap (λ (x : String × String). any_known version table (x ∷ l₁)) e
    ∙ ap (λ r. is_some (grade version table b.0) || r) rest
any_known-Permᴰ version table (swap {a} {b} {a'} {b'} {l} e f) =
    or-swap (is_some (grade version table a.0)) (is_some (grade version table b.0))
      (any_known version table l)
    ∙ ap (λ (x : String × String). any_known version table (x ∷ a ∷ l)) f
    ∙ ap (λ (x : String × String). any_known version table (a' ∷ x ∷ l)) e
any_known-Permᴰ version table (trans p q) =
    any_known-Permᴰ version table p ∙ any_known-Permᴰ version table q

pub any_known-Perm :
    (version : Version) (table : List (String × ℕ)) {cs ds : List (String × String)}
    → Perm cs ds
    → any_known version table cs ≡ any_known version table ds
any_known-Perm version table p = ∥∥₁_elim p (Bool-set _ _) (any_known-Permᴰ version table)

module _ (fl : Float64) where
  open fl use {Value}

  last_grade-extended :
      (version : Version) (checks : List (String × ℕ)) (x : Value) (cs : List (String × String))
      → last_grade fl version (extended version checks) x cs ≡ last_grade fl version checks x cs
  unfolding last_grade
  last_grade-extended version checks x [] = refl
  last_grade-extended version checks x ((key, message) ∷ rest) =
      ap (λ g. last_grade fl version (extended version checks) (interpreted fl g x) rest)
        (grade-extended version checks key)
      ∙ last_grade-extended version checks (interpreted fl (grade version checks key) x) rest

  -- Where the checks are read to their end, the interpreter shows the grade of the last of them that
  -- is known, or what it showed before if none is; and the legacy gauge of a flag, if it has one, is
  -- 1 if some check lists the flag, and what it was before if none does.
  pub read_checks-last_grade :
      (version : Version) (cs : List (String × String)) (p p' : Progress fl)
      → read_checks fl version false cs p ≡ going p'
      → (p'.interpreter ≡ last_grade fl version p.checks p.interpreter cs)
        × ((flag : String)
            → lookup flag p'.flags ≡ raised_gauge fl (is_raised flag cs) (lookup flag p.flags))
  unfolding read_checks read_check interpret last_grade is_raised
  read_checks-last_grade version [] p p' h =
      subst
        (λ q.
          (q.interpreter ≡ p.interpreter)
          × ((flag : String) → lookup flag q.flags ≡ lookup flag p.flags))
        (ap reached h) (refl, λ flag. refl)
  read_checks-last_grade version ((key, message) ∷ rest) p p' h =
      let (q, hq, hrest) = >>=-eq-going (read_check fl version false key (codes message) p) _ h in
      let (r, hr, eq) =
        >>=-eq-going (read_message fl key (codes message) p)
          (λ x. going (interpret fl version false key x)) hq in
      let keeps = read_message-Keeps fl key (codes message) p r hr in
      let (ih, ih') =
        read_checks-last_grade version rest (interpret fl version false key r) p' (
          subst (λ x. read_checks fl version false rest x ≡ going p') (sym (ap reached eq))
            hrest) in
      (
        ih
            ∙ last_grade-extended version r.checks
                (interpreted fl (grade version r.checks key) r.interpreter) rest
            ∙ ap
                (λ c.
                  last_grade fl version c (interpreted fl (grade version c key) r.interpreter) rest)
                keeps.checks
            ∙ ap
                (λ x.
                  last_grade fl version p.checks (interpreted fl (grade version p.checks key) x)
                    rest)
                keeps.interpreter,
        λ flag.
            ih' flag
            ∙ ap (raised_gauge fl (is_raised flag rest)) (keeps.gauges flag)
            ∙ raised_gauge-or fl (names flag (listed key (codes message))) (is_raised flag rest)
                (lookup flag p.flags),
      )

  abbrev is_warning : ℕ → Bool
  is_warning n = n == 1 || n == 2

  abbrev are_warnings : List (String × ℕ) → Bool
  are_warnings [] = true
  are_warnings ((key, n) ∷ rest) = is_warning n && are_warnings rest

  lookup-is_warning :
      (key : String) (table : List (String × ℕ)) (n : ℕ)
      → are_warnings table ≡ true
      → lookup key table ≡ some n
      → is_warning n ≡ true
  unfolding lookup
  lookup-is_warning key [] n a h = cc
  lookup-is_warning key ((k, m) ∷ rest) n a h = elim (Bool-cases (beq k key)) [
    | inl e ↦ ground (arith, some-injective m n (rw e at h))
    | inr e ↦ lookup-is_warning key rest n (ground arith) (rw e at h)
  ]

  insert-are_warnings :
      (key : String) (n : ℕ) (table : List (String × ℕ))
      → is_warning n ≡ true
      → are_warnings table ≡ true
      → are_warnings (insert key n table) ≡ true
  unfolding insert
  insert-are_warnings key n [] e h = rw e refl
  insert-are_warnings key n ((k, m) ∷ rest) e h = elim (Bool-cases (beq k key)) [
    | inl q ↦ rw q (ground arith)
    | inr q ↦ let tail = insert-are_warnings key n rest e (ground arith) in rw q (ground arith)
  ]

  extended-are_warnings :
      (version : Version) (table : List (String × ℕ))
      → are_warnings table ≡ true
      → are_warnings (extended version table) ≡ true
  extended-are_warnings version table h = elim (Bool-cases (is_at_least version pacific)) [
    | inl e ↦ rw e (insert-are_warnings "DAEMON_OLD_VERSION" 2 table refl h)
    | inr e ↦ rw e h
  ]

  IsTable-are_warnings : (table : List (String × ℕ)) → IsTable table → are_warnings table ≡ true
  IsTable-are_warnings _ made = refl
  IsTable-are_warnings _ (renewed {table} version h) =
      extended-are_warnings version table (IsTable-are_warnings table h)

  grade-is_warning :
      (version : Version) (table : List (String × ℕ)) (key : String) (n : ℕ)
      → IsTable table
      → grade version table key ≡ some n
      → is_warning n ≡ true
  grade-is_warning version table key n t h =
      lookup-is_warning key (extended version table) n
        (extended-are_warnings version table (IsTable-are_warnings table t)) h

  -- A value that stands for a warning.
  abbrev pub ShowsWarning : Value → Type 0
  ShowsWarning x = (x ≡ of_count fl 1) ⊎ (x ≡ of_count fl 2)

  ShowsWarning-is_warning : (n : ℕ) → is_warning n ≡ true → ShowsWarning (of_count fl n)
  ShowsWarning-is_warning n h = elim (Bool-cases (n == 1)) [
    | inl e ↦ inl (ap (of_count fl) ((==_iff n 1).0 e))
    | inr e ↦ inr (ap (of_count fl) ((==_iff n 2).0 (rw e at h)))
  ]

  pub last_grade-ShowsWarning :
      (version : Version) (table : List (String × ℕ)) (x : Value) (cs : List (String × String))
      → IsTable table
      → (ShowsWarning x ⊎ (any_known version table cs ≡ true))
      → ShowsWarning (last_grade fl version table x cs)
  unfolding last_grade any_known
  last_grade-ShowsWarning version table x [] t (inl h) = h
  last_grade-ShowsWarning version table x [] t (inr h) = cc
  last_grade-ShowsWarning version table x ((key, message) ∷ rest) t h =
      elim (Option-cases (grade version table key)) [
        | inl e ↦ rw e (
            last_grade-ShowsWarning version table x rest t
              (elim h [ inl w ↦ inl w | inr k ↦ inr (rw e at k) ]))
        | inr (n, e) ↦ rw e (
            last_grade-ShowsWarning version table (of_count fl n) rest t
              (inl (ShowsWarning-is_warning n (grade-is_warning version table key n t e))))
      ]

  pub set_status-checks :
      (status : String) (p : Progress fl) → (set_status fl status p).checks ≡ p.checks
  unfolding set_status
  set_status-checks status p = elim (Bool-cases (string_beq status "HEALTH_OK")) [
    | inl e ↦ rw e refl
    | inr a ↦ elim (Bool-cases (string_beq status "HEALTH_WARN")) [
      | inl e ↦ rw (a, e) refl
      | inr b ↦ elim (Bool-cases (string_beq status "HEALTH_ERR")) [
        | inl e ↦ rw (a, b, e) refl
        | inr c ↦ rw (a, b, c) refl
      ]
    ]
  ]
