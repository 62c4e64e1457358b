-- ===== src/Version/Pattern/Tidy.antt =====
-- Texts that the rewriting of `ParseCephVersion` leaves alone.
use ceph_exporter.Base.{
  ℕ, ◌≡◌, refl, ap, true, inl, inr, Option, none, some, ◌>>=◌, [], ◌∷◌, ◌++◌, arith, ◌==◌, Text,
  Lacks, Bool-cases,
}
use ceph_exporter.Version.Pattern.{skip_digits, after_digits, after_char, after_prefix, standardize}

-- No dot stands behind a dash.
abbrev pub Tidy : Text → Type 0
Tidy [] = Unit
Tidy (c ∷ s) = ((c == b'-') ≡ true → Lacks b'.' s) × Tidy s

pub Tidy-of_no_dot : (s : Text) → Lacks b'.' s → Tidy s
Tidy-of_no_dot [] h = tt
Tidy-of_no_dot (c ∷ s) h = (λ _. h.1, Tidy-of_no_dot s h.1)

pub Tidy-append : (s t : Text) → Lacks b'-' s → Tidy t → Tidy (s ++ t)
Tidy-append [] t h k = k
Tidy-append (c ∷ s) t h k = (λ e. ground arith, Tidy-append s t h.1 k)

-- What holds of the rest of the text after a step of the match that succeeds.
abbrev Rest : (Text → Type 0) → Option Text → Type 0
Rest P none = Unit
Rest P (some s) = P s

Rest-bind :
    (P Q : Text → Type 0) (m : Option Text) (f : Text → Option Text)
    → Rest P m
    → ((s : Text) → P s → Rest Q (f s))
    → Rest Q (m >>= f)
Rest-bind P Q none f h k = tt
Rest-bind P Q (some s) f h k = k s h

skip_digits-Tidy : (s : Text) → Tidy s → Tidy (skip_digits s)
unfolding skip_digits
skip_digits-Tidy [] h = tt
skip_digits-Tidy (c ∷ s) h = ground (arith, skip_digits-Tidy s h.1)

skip_digits-Lacks : (k : ℕ) (s : Text) → Lacks k s → Lacks k (skip_digits s)
unfolding skip_digits
skip_digits-Lacks k [] h = tt
skip_digits-Lacks k (c ∷ s) h = ground (arith, skip_digits-Lacks k s h.1)

after_digits-Tidy : (s : Text) → Tidy s → Rest Tidy (after_digits s)
unfolding after_digits
after_digits-Tidy [] h = tt
after_digits-Tidy (c ∷ s) h = ground (arith, skip_digits-Tidy s h.1)

after_digits-Lacks : (k : ℕ) (s : Text) → Lacks k s → Rest (Lacks k) (after_digits s)
unfolding after_digits
after_digits-Lacks k [] h = tt
after_digits-Lacks k (c ∷ s) h = ground (arith, skip_digits-Lacks k s h.1)

after_dot-Tidy : (s : Text) → Tidy s → Rest Tidy (after_char b'.' s)
unfolding after_char
after_dot-Tidy [] h = tt
after_dot-Tidy (c ∷ s) h = ground arith

after_dash-Tidy : (s : Text) → Tidy s → Rest (Lacks b'.') (after_char b'-' s)
unfolding after_char
after_dash-Tidy [] h = tt
after_dash-Tidy (c ∷ s) h = elim (Bool-cases (c == b'-')) [ inl e ↦ rw e (h.0 e) | inr e ↦ rw e tt ]

after_dot-Lacks : (s : Text) → Lacks b'.' s → Rest (λ _. ⊥) (after_char b'.' s)
unfolding after_char
after_dot-Lacks [] h = tt
after_dot-Lacks (c ∷ s) h = ground arith

after_prefix-Tidy : (s : Text) → Tidy s → Rest (λ _. ⊥) (after_prefix s)
unfolding after_prefix
after_prefix-Tidy s h = Rest-bind Tidy N _ _ (after_digits-Tidy s h) λ a ha.
    Rest-bind Tidy N _ _ (after_dot-Tidy a ha) λ b hb.
      Rest-bind Tidy N _ _ (after_digits-Tidy b hb) λ c hc.
        Rest-bind Tidy N _ _ (after_dot-Tidy c hc) λ d hd.
          Rest-bind Tidy N _ _ (after_digits-Tidy d hd) λ e he.
            Rest-bind (Lacks b'.') N _ _ (after_dash-Tidy e he)
              λ f hf. Rest-bind (Lacks b'.') N _ _ (after_digits-Lacks b'.' f hf) after_dot-Lacks
  where
    N : Text → Type 0
    N s = ⊥

no_match : (o : Option Text) → Rest (λ _. ⊥) o → o ≡ none
no_match none h = refl
no_match (some s) h = absurd h

-- A text with no dot behind a dash is left as it is.
pub standardize-Tidy : (s : Text) → Tidy s → standardize s ≡ s
unfolding standardize
standardize-Tidy [] h = refl
standardize-Tidy (c ∷ s) h =
    rw (no_match (after_prefix (c ∷ s)) (after_prefix-Tidy (c ∷ s) h))
      (ap (◌∷◌ c) (unfold standardize in standardize-Tidy s h.1))
