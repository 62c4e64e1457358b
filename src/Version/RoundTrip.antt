-- ===== src/Version/RoundTrip.antt =====
-- What `ParseCephVersion` reads of a version in each of the formats that occur.
use mathlib.Core.List.{append_assoc}
use ceph_exporter.Base.{
  ℕ, ◌≡◌, refl, ap, sym, ◌∙◌, inl, inr, eqb_ℤ, Bool-cases, ◌∷◌, ◌++◌, pos, Text,
}
use ceph_exporter.Base.Result.{ok}
use ceph_exporter.Version.{to_string}
use ceph_exporter.Version.Decimal.{print_nat, print_int, print_nat-IsNumber}
use ceph_exporter.Version.Pattern.Tidy.{standardize-Tidy}
use ceph_exporter.Version.Pattern.Ansible.{banner, first_group, standardize-ansible}
use ceph_exporter.Version.Parse.{parse_ceph_version}
use ceph_exporter.Version.Printed.{
  IsCommit, version_of, build, Lacks-build, Tidy-build, parse_word, parse_build, AreInts,
}

module _ (a b c d : ℕ) (t : Text) (r : AreInts a b c d) (h : IsCommit t) where
  -- The official format, `ceph version a.b.c-d-commit`, is read as the version it was printed from,
  -- for numbers that are an `int` and a commit without dash, dot, space or newline.
  pub parse-build : parse_ceph_version (banner ++ build a b c d t) ≡ ok (version_of a b c d t)
  parse-build =
      parse_word _ _ (standardize-Tidy _ (Tidy-build a b c d t h))
        (Lacks-build b' ' a b c d t refl refl refl h.no_space)
      ∙ parse_build a b c d t r h

  ansible_build :
      first_group (print_nat a) (print_nat b) (print_nat c) (print_nat d) ++ b'-' ∷ t
      ≡ build a b c d t
  unfolding build
  ansible_build = simp append_assoc

  -- The format of ceph-ansible, `ceph version a.b.c-d.commit`, is read as the same version as the
  -- official one, `a.b.c-d-commit`, for numbers that are an `int` and a commit without dash, dot,
  -- space or newline.
  pub parse-ansible :
      parse_ceph_version (
        banner ++ (first_group (print_nat a) (print_nat b) (print_nat c) (print_nat d) ++ b'.' ∷ t))
      ≡ parse_ceph_version (banner ++ build a b c d t)
  parse-ansible =
      parse_word _ (build a b c d t)
        (standardize-ansible _ _ _ _ t (print_nat-IsNumber a) (print_nat-IsNumber b)
            (print_nat-IsNumber c) (print_nat-IsNumber d) h.no_newline
          ∙ ap (λ s. banner ++ s) ansible_build)
        (Lacks-build b' ' a b c d t refl refl refl h.no_space)
      ∙ parse_build a b c d t r h
      ∙ sym parse-build

module _ (a b c d x : ℕ) (t : Text) where
  to_string-build : to_string (version_of a b c d (x ∷ t)) ≡ build a b c c (x ∷ t)
  unfolding to_string version_of build print_int
  to_string-build = elim (Bool-cases (eqb_ℤ (pos d) (pos 0))) [
    | inl e ↦ rw e (simp append_assoc)
    | inr e ↦ rw e (simp append_assoc)
  ]

  -- A build with a commit is printed by `String` with its patch number in place of its revision:
  -- read back, the version has the patch number as its revision, and all else as it was.
  pub parse-to_string_build :
      AreInts a b c d
      → IsCommit (x ∷ t)
      → parse_ceph_version (banner ++ to_string (version_of a b c d (x ∷ t)))
        ≡ ok (version_of a b c c (x ∷ t))
  parse-to_string_build r h =
      ap (λ s. parse_ceph_version (banner ++ s)) to_string-build
      ∙ parse-build a b c c (x ∷ t) (r.0, r.1, r.2, r.2) h
