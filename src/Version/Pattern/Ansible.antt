-- ===== src/Version/Pattern/Ansible.antt =====
-- The format of ceph-ansible, `a.b.c-d.commit`, is rewritten to `a.b.c-d-commit`.
use mathlib.Core.List.{append_assoc}
use ceph_exporter.Base.{
  ℕ, ◌-◌, ◌≡◌, refl, ap, ◌∙◌, false, some, [], ◌∷◌, ◌++◌, arith, length, length-append, Text, codes,
  is_digit, Lacks,
}
use ceph_exporter.Version.Decimal.{IsDigits, IsNumber}
use ceph_exporter.Version.Pattern.{
  scan, group, line, skip_digits, after_digits, after_prefix, rewrite, standardize, newline,
}

skip_digits-append :
    (s : Text) (c : ℕ) (t : Text)
    → IsDigits s
    → is_digit c ≡ false
    → skip_digits (s ++ c ∷ t) ≡ c ∷ t
unfolding skip_digits
skip_digits-append [] c t h e = ground arith
skip_digits-append (x ∷ s) c t h e = ground (arith, skip_digits-append s c t h.1 e)

-- A number in front of a character that is no digit is taken whole.
after_digits-append :
    (s : Text) (c : ℕ) (t : Text)
    → IsNumber s
    → is_digit c ≡ false
    → after_digits (s ++ c ∷ t) ≡ some (c ∷ t)
unfolding after_digits
after_digits-append [] c t h e = absurd h
after_digits-append (x ∷ s) c t h e = ground (arith, skip_digits-append s c t h.1 e)

-- a.b.c-d
abbrev pub first_group : Text → Text → Text → Text → Text
first_group a b c d = a ++ b'.' ∷ (b ++ b'.' ∷ (c ++ b'-' ∷ d))

module _ (a b c d t : Text) (na : IsNumber a) (nb : IsNumber b) (nc : IsNumber c)
    (nd : IsNumber d) where
  abbrev tail4 : Text
  tail4 = d ++ b'.' ∷ t

  after_prefix-first_group : after_prefix (a ++ b'.' ∷ (b ++ b'.' ∷ (c ++ b'-' ∷ tail4))) ≡ some t
  unfolding after_prefix
  after_prefix-first_group = simp (
    after_digits-append a b'.' (b ++ b'.' ∷ (c ++ b'-' ∷ tail4)) na refl,
    after_digits-append b b'.' (c ++ b'-' ∷ tail4) nb refl,
    after_digits-append c b'-' tail4 nc refl,
    after_digits-append d b'.' t nd refl,
  )

rewrite-group :
    (s t : Text) → rewrite (group (length s)) (s ++ b'.' ∷ t) ≡ s ++ b'-' ∷ rewrite line t
unfolding rewrite
rewrite-group [] t = refl
rewrite-group (c ∷ s) t = ap (◌∷◌ c) (rewrite-group s t)

rewrite-line : (t : Text) → Lacks newline t → rewrite line t ≡ t
unfolding rewrite
rewrite-line [] h = refl
rewrite-line (c ∷ t) h = rw h.0 (ap (◌∷◌ c) (rewrite-line t h.1))

rewrite-match :
    (c : ℕ) (s rest : Text)
    → after_prefix (c ∷ s) ≡ some rest
    → rewrite scan (c ∷ s) ≡ rewrite (group (length (c ∷ s) - length rest - 1)) (c ∷ s)
unfolding rewrite
rewrite-match c s rest e = rw e

-- A match at the head of a text: the dot behind the first group becomes a dash.
rewrite-head :
    (c : ℕ) (s t : Text)
    → after_prefix (c ∷ (s ++ b'.' ∷ t)) ≡ some t
    → Lacks newline t
    → rewrite scan (c ∷ (s ++ b'.' ∷ t)) ≡ c ∷ (s ++ b'-' ∷ t)
rewrite-head c s t e h =
    rewrite-match c (s ++ b'.' ∷ t) t e
    ∙ ap (λ n. rewrite (group n) (c ∷ (s ++ b'.' ∷ t))) (omega (arith, length-append s (b'.' ∷ t)))
    ∙ rewrite-group (c ∷ s) t
    ∙ ap (λ r. c ∷ (s ++ b'-' ∷ r)) (rewrite-line t h)

rewrite-first_group :
    (a b c d t : Text)
    → IsNumber a
    → IsNumber b
    → IsNumber c
    → IsNumber d
    → Lacks newline t
    → rewrite scan (first_group a b c d ++ b'.' ∷ t) ≡ first_group a b c d ++ b'-' ∷ t
rewrite-first_group [] b c d t na nb nc nd h = absurd na
rewrite-first_group (x ∷ a) b c d t na nb nc nd h =
    rewrite-head x (a ++ b'.' ∷ (b ++ b'.' ∷ (c ++ b'-' ∷ d))) t
      (ap after_prefix (simp append_assoc) ∙ after_prefix-first_group (x ∷ a) b c d t na nb nc nd) h

abbrev pub banner : Text
banner = codes "ceph version "

-- The text behind `ceph version ` is rewritten.
pub standardize-ansible :
    (a b c d t : Text)
    → IsNumber a
    → IsNumber b
    → IsNumber c
    → IsNumber d
    → Lacks newline t
    → standardize (banner ++ (first_group a b c d ++ b'.' ∷ t))
      ≡ banner ++ (first_group a b c d ++ b'-' ∷ t)
unfolding standardize
standardize-ansible a b c d t na nb nc nd h =
    ap (λ s. banner ++ s) (rewrite-first_group a b c d t na nb nc nd h)
