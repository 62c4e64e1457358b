-- ===== src/Health/Checks/Laws.antt =====
-- ceph/health.go: what the message of one check does to the gauges.
use ceph_exporter.Base.{
  ℕ, String, ◌≡◌, refl, sym, ap, ◌∙◌, inl, inr, Bool, true, false, ◌||◌, Option, none, some, List,
  [], ◌∷◌, lookup, insert, lookup-insert, beq, string_eq, string_beq, eq_iff, Text, codes,
  string_of, if◌then◌else◌, Bool-cases, arith,
}
use mathlib.Core.List.{Perm, Permᴰ}
use mathlib.Core.List.Permᴰ.{nil, cons, swap, trans}
use mathlib.Core.Logic.{∥∥₁_elim}
use mathlib.Core.Bool.{Bool-set}
use mathlib.Core.Path.{subst}
use ceph_exporter.Float.{Float64, of_count}
use ceph_exporter.Version.{Version, is_at_least, pacific}
use ceph_exporter.Health.Messages
use ceph_exporter.Base.{ℤ}
use ceph_exporter.Base.Result.{Result, ok, err}
use ceph_exporter.Prometheus.{Desc}
use ceph_exporter.Version.Decimal.{atoi, NumError}
use ceph_exporter.Health.Progress.{
  Progress, going, failed, reached, send, const_metric, send_number,
}
use ceph_exporter.Health.Checks.{
  raise, raised, raise_all, flags_of, read_message, extended, interpreted,
}

-- How grave a check is, if it is known.
abbrev pub grade : Version → List (String × ℕ) → String → Option ℕ
grade version checks key = lookup key (extended version checks)

pub grade-extended :
    (version : Version) (checks : List (String × ℕ)) (key : String)
    → grade version (extended version checks) key ≡ grade version checks key
grade-extended version checks key = elim (Bool-cases (is_at_least version pacific)) [
  | inl new ↦ rw new (
      lookup-insert "DAEMON_OLD_VERSION" key 2 (insert "DAEMON_OLD_VERSION" 2 checks)
      ∙ elim (Bool-cases (beq "DAEMON_OLD_VERSION" key)) [
        | inl e ↦ rw e (sym (lookup-insert "DAEMON_OLD_VERSION" key 2 checks ∙ rw e refl))
        | inr e ↦ rw e refl
      ])
  | inr old ↦ rw old refl
]

-- The names of the flags that one check lists.
unfoldable pub listed : String → Text → List Text
listed key message =
    if string_beq key "OSDMAP_FLAGS" then flags_of (Messages.flags_set message) else []

unfoldable pub names : String → List Text → Bool
names flag [] = false
names flag (f ∷ fs) = string_beq (string_of f) flag || names flag fs

pub or-swap : (b c d : Bool) → (b || (c || d)) ≡ (c || (b || d))
or-swap b c d = ground arith

-- Some check lists the flag.
unfoldable pub is_raised : String → List (String × String) → Bool
unfolding listed names
is_raised flag [] = false
is_raised flag ((key, message) ∷ rest) =
    names flag (listed key (codes message)) || is_raised flag rest

is_raised-Permᴰ :
    (flag : String) {cs ds : List (String × String)}
    → Permᴰ cs ds
    → is_raised flag cs ≡ is_raised flag ds
unfolding is_raised
is_raised-Permᴰ flag nil = refl
is_raised-Permᴰ flag (cons {a} {b} {l₁} {l₂} e p) =
    let rest = is_raised-Permᴰ flag p in
    ap (λ (x : String × String). is_raised flag (x ∷ l₁)) e
    ∙ ap (λ r. names flag (listed b.0 (codes b.1)) || r) rest
is_raised-Permᴰ flag (swap {a} {b} {a'} {b'} {l} e f) =
    or-swap (names flag (listed a.0 (codes a.1))) (names flag (listed b.0 (codes b.1)))
      (is_raised flag l)
    ∙ ap (λ (x : String × String). is_raised flag (x ∷ a ∷ l)) f
    ∙ ap (λ (x : String × String). is_raised flag (a' ∷ x ∷ l)) e
is_raised-Permᴰ flag (trans p q) = is_raised-Permᴰ flag p ∙ is_raised-Permᴰ flag q

-- The order of the checks does not matter for the flags.
pub is_raised-Perm :
    (flag : String) {cs ds : List (String × String)}
    → Perm cs ds
    → is_raised flag cs ≡ is_raised flag ds
is_raised-Perm flag p = ∥∥₁_elim p (Bool-set _ _) (is_raised-Permᴰ flag)

module _ (fl : Float64) where
  open fl use {Value}

  -- The grade of the last check that is known, if one is.
  unfoldable pub last_grade : Version → List (String × ℕ) → Value → List (String × String) → Value
  last_grade version checks x [] = x
  last_grade version checks x ((key, message) ∷ rest) =
      last_grade version checks (interpreted fl (grade version checks key) x) rest

  -- The legacy gauge of a flag that is raised, if it has one.
  abbrev pub raised_gauge : Bool → Option Value → Option Value
  raised_gauge true (some x) = some (of_count fl 1)
  raised_gauge true none = none
  raised_gauge false old = old

  -- What a message changes beside what it sends.
  pub record Keeps (flags : List Text) (p p' : Progress fl) : Type 0 where
    pub interpreter : p'.interpreter ≡ p.interpreter
    pub checks : p'.checks ≡ p.checks
    pub gauges :
        (flag : String)
        → lookup flag p'.flags ≡ raised_gauge (names flag flags) (lookup flag p.flags)

  raise-gauge :
      (flag f : String) (p : Progress fl)
      → lookup flag (raise fl f p).flags ≡ raised_gauge (string_beq f flag) (lookup flag p.flags)
  raise-gauge flag f p = go (lookup f p.flags) refl
    where
      same : string_beq f flag ≡ true → lookup flag p.flags ≡ lookup f p.flags
      same e = ap (λ k. lookup k p.flags) (sym ((eq_iff f flag).0 e))

      go :
          (o : Option Value)
          → lookup f p.flags ≡ o
          → lookup flag (raised fl f o p.flags)
            ≡ raised_gauge (string_beq f flag) (lookup flag p.flags)
      go none h = elim (Bool-cases (string_beq f flag)) [
        | inl e ↦ rw (e, same e ∙ h) refl
        | inr e ↦ rw e refl
      ]
      go (some x) h =
          lookup-insert f flag (of_count fl 1) p.flags ∙ elim (Bool-cases (string_beq f flag)) [
            | inl e ↦ rw (e, same e ∙ h) refl
            | inr e ↦ rw e refl
          ]

  pub raised_gauge-or :
      (b c : Bool) (o : Option Value) → raised_gauge c (raised_gauge b o) ≡ raised_gauge (b || c) o
  raised_gauge-or true true none = refl
  raised_gauge-or true true (some x) = refl
  raised_gauge-or true false none = refl
  raised_gauge-or true false (some x) = refl
  raised_gauge-or false c o = refl

  raise_all-Keeps : (fs : List Text) (p : Progress fl) → Keeps fs p (raise_all fl fs p)
  unfolding raise_all names
  raise_all-Keeps [] p = record { interpreter = refl; checks = refl; gauges = λ flag. refl }
  raise_all-Keeps (f ∷ fs) p =
      let rest = raise_all-Keeps fs (raise fl (string_of f) p) in
      record {
        interpreter = rest.interpreter;
        checks = rest.checks;
        gauges = λ flag.
            rest.gauges flag
            ∙ ap (raised_gauge (names flag fs)) (raise-gauge flag (string_of f) p)
            ∙ raised_gauge-or (string_beq (string_of f) flag) (names flag fs) (lookup flag p.flags);
      }

  pub Keeps-going :
      (fs : List Text) (p q p' : Progress fl) → Keeps fs p q → going q ≡ going p' → Keeps fs p p'
  Keeps-going fs p q p' k h = subst (Keeps fs p) (ap reached h) k

  pub send_number-Keeps :
      (d : Desc) (o : Option Text) (p p' : Progress fl)
      → send_number fl d o p ≡ going p'
      → Keeps [] p p'
  unfolding names
  send_number-Keeps d none p p' h =
      Keeps-going [] p p p' (record { interpreter = refl; checks = refl; gauges = λ flag. refl }) h
  send_number-Keeps d (some ds) p p' h = go (atoi ds) h
    where
      go :
          (r : Result NumError ℤ)
          → elim r [
            | ok v ↦ going (send fl (const_metric fl d (fl.of_int v) []) p)
            | err e ↦ failed p
          ]
            ≡ going p'
          → Keeps [] p p'
      go (ok v) h =
          Keeps-going [] p _ p'
            (record { interpreter = refl; checks = refl; gauges = λ flag. refl }) h
      go (err e) h = cc

  other_key :
      (key k : String) (message : Text) (p p' : Progress fl)
      → string_beq key k ≡ true
      → string_beq k "OSDMAP_FLAGS" ≡ false
      → Keeps [] p p'
      → Keeps (listed key message) p p'
  unfolding listed
  other_key key k message p p' e f h =
      subst (λ s. Keeps (listed s message) p p') (sym ((eq_iff key k).0 e)) (rw f h)

  pub read_message-Keeps :
      (key : String) (message : Text) (p p' : Progress fl)
      → read_message fl key message p ≡ going p'
      → Keeps (listed key message) p p'
  unfolding read_message listed
  read_message-Keeps key message p p' h = elim (Bool-cases (string_beq key "MON_DOWN")) [
    | inl e ↦ other_key key "MON_DOWN" message p p' e refl (send_number-Keeps _ _ p p' (rw e at h))
    | inr a ↦ elim (Bool-cases (string_beq key "SLOW_OPS")) [
      | inl e ↦
          other_key key "SLOW_OPS" message p p' e refl (send_number-Keeps _ _ p p' (rw (a, e) at h))
      | inr b ↦ elim (Bool-cases (string_beq key "RECENT_CRASH")) [
        | inl e ↦
            other_key key "RECENT_CRASH" message p p' e refl
              (send_number-Keeps _ _ p p' (rw (a, b, e) at h))
        | inr c ↦ elim (Bool-cases (string_beq key "OSD_TOO_MANY_REPAIRS")) [
          | inl e ↦
              other_key key "OSD_TOO_MANY_REPAIRS" message p p' e refl
                (send_number-Keeps _ _ p p' (rw (a, b, c, e) at h))
          | inr d ↦ elim (Bool-cases (string_beq key "OSDMAP_FLAGS")) [
            | inl e ↦ rw e (
                Keeps-going _ p _ p' (raise_all-Keeps (flags_of (Messages.flags_set message)) p)
                  (rw (a, b, c, d, e) at h))
            | inr e ↦ rw e (Keeps-going [] p p p' (raise_all-Keeps [] p) (rw (a, b, c, d, e) at h))
          ]
        ]
      ]
    ]
  ]
