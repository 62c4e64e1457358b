-- ===== src/Version/Printed.antt =====
-- Printed versions, and what the steps of `ParseCephVersion` make of them.
use ceph_exporter.Base.{
  ℕ, ◌<◌, ◌≡◌, ◌==◌, refl, ap, ◌∙◌, false, [], ◌∷◌, ◌++◌, arith, pos, Text, split, split-Lacks,
  split-append, Lacks, Lacks-append, is_digit,
}
use ceph_exporter.Base.Result.{ok, ◌>>=◌}
use ceph_exporter.Version.{Version}
use ceph_exporter.Version.Decimal.{print_nat, print_nat-Lacks, atoi-print_nat, int64_bound}
use ceph_exporter.Version.Pattern.{standardize, newline}
use ceph_exporter.Version.Pattern.Tidy.{Tidy, Tidy-of_no_dot, Tidy-append}
use ceph_exporter.Version.Pattern.Ansible.{banner}
use ceph_exporter.Version.Parse.{parse_ceph_version, numbers, third_word, some_versions}

-- A commit as Ceph's builds write it: none of the characters at which the parser splits.
pub record IsCommit (s : Text) : Type 0 where
  pub no_dash : Lacks b'-' s
  pub no_dot : Lacks b'.' s
  pub no_space : Lacks b' ' s
  pub no_newline : Lacks newline s

banner-split : (s : Text) → Lacks b' ' s → third_word (split b' ' (banner ++ s)) ≡ ok s
unfolding split
banner-split s h = rw (split-Lacks b' ' s h)

pub split_three :
    (sep : ℕ) (a b c : Text)
    → Lacks sep a
    → Lacks sep b
    → Lacks sep c
    → split sep (a ++ sep ∷ (b ++ sep ∷ c)) ≡ a ∷ b ∷ c ∷ []
split_three sep a b c ha hb hc =
    split-append sep a (b ++ sep ∷ c) ha
    ∙ ap (◌∷◌ a) (split-append sep b c hb ∙ ap (◌∷◌ b) (split-Lacks sep c hc))

unfoldable pub version_of : ℕ → ℕ → ℕ → ℕ → Text → Version
version_of a b c d t = record {
  major = pos a;
  minor = pos b;
  patch = pos c;
  revision = pos d;
  commit = t;
}

-- a.b.c-d-commit
unfoldable pub build : ℕ → ℕ → ℕ → ℕ → Text → Text
build a b c d t =
    print_nat a ++ b'.' ∷ (print_nat b ++ b'.' ∷ (print_nat c ++ b'-' ∷ (print_nat d ++ b'-' ∷ t)))

-- a.b.c
unfoldable pub plain : ℕ → ℕ → ℕ → Text
plain a b c = print_nat a ++ b'.' ∷ (print_nat b ++ b'.' ∷ print_nat c)

-- A character that no printed number holds and that separates no two of them.
pub Lacks-build :
    (k a b c d : ℕ) (t : Text)
    → is_digit k ≡ false
    → (b'.' == k) ≡ false
    → (b'-' == k) ≡ false
    → Lacks k t
    → Lacks k (build a b c d t)
unfolding build
Lacks-build k a b c d t h dot dash ht = Lacks-append k (print_nat a) _ (print_nat-Lacks k a h) (
  dot,
  Lacks-append k (print_nat b) _ (print_nat-Lacks k b h) (
    dot,
    Lacks-append k (print_nat c) _ (print_nat-Lacks k c h)
        (dash, Lacks-append k (print_nat d) _ (print_nat-Lacks k d h) (dash, ht)),
  ),
)

Lacks-dashed :
    (k c d : ℕ) (t : Text)
    → is_digit k ≡ false
    → (b'-' == k) ≡ false
    → Lacks k t
    → Lacks k (print_nat c ++ b'-' ∷ (print_nat d ++ b'-' ∷ t))
Lacks-dashed k c d t h dash ht =
    Lacks-append k (print_nat c) _ (print_nat-Lacks k c h)
      (dash, Lacks-append k (print_nat d) _ (print_nat-Lacks k d h) (dash, ht))

pub Tidy-build : (a b c d : ℕ) (t : Text) → IsCommit t → Tidy (banner ++ build a b c d t)
unfolding build
Tidy-build a b c d t h = Tidy-append banner (build a b c d t) (ground arith) (
    Tidy-append (print_nat a) _ (print_nat-Lacks b'-' a refl) (
      λ e. absurd (cc),
      Tidy-append (print_nat b) _ (print_nat-Lacks b'-' b refl)
          (λ e. absurd (cc), Tidy-of_no_dot _ (Lacks-dashed b'.' c d t refl refl h.no_dot)),
    ))

-- The numbers of a version are `int`s.
abbrev pub AreInts : ℕ → ℕ → ℕ → ℕ → Type 0
AreInts a b c d = (a < int64_bound) × (b < int64_bound) × (c < int64_bound) × (d < int64_bound)

pub numbers-print_nat :
    (a b c d : ℕ) (t : Text)
    → AreInts a b c d
    → numbers (record {
      major = print_nat a;
      minor = print_nat b;
      patch = print_nat c;
      revision = print_nat d;
      commit = t;
    })
      ≡ ok (version_of a b c d t)
unfolding numbers version_of
numbers-print_nat a b c d t h =
    simp (atoi-print_nat a h.0, atoi-print_nat b h.1, atoi-print_nat c h.2, atoi-print_nat d h.3)

-- the parse of the text behind the banner, once rewritten
pub parse_word :
    (s w : Text)
    → standardize (banner ++ s) ≡ banner ++ w
    → Lacks b' ' w
    → parse_ceph_version (banner ++ s) ≡ (do parts ← some_versions (split b'.' w); numbers parts)
unfolding parse_ceph_version
parse_word s w e h = rw (e, banner-split w h)

pub parse_build :
    (a b c d : ℕ) (t : Text)
    → AreInts a b c d
    → IsCommit t
    → (do parts ← some_versions (split b'.' (build a b c d t)); numbers parts)
      ≡ ok (version_of a b c d t)
unfolding build
parse_build a b c d t r h =
    rw
      (
        split_three b'.' (print_nat a) (print_nat b)
            (print_nat c ++ b'-' ∷ (print_nat d ++ b'-' ∷ t)) (print_nat-Lacks b'.' a refl)
            (print_nat-Lacks b'.' b refl) (Lacks-dashed b'.' c d t refl refl h.no_dot),
        split_three b'-' (print_nat c) (print_nat d) t (print_nat-Lacks b'-' c refl)
            (print_nat-Lacks b'-' d refl) h.no_dash,
      )
      (numbers-print_nat a b c d t r)
