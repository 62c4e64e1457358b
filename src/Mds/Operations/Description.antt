-- ===== src/Mds/Operations/Description.antt =====
-- ceph/mds.go: what `extractOpFromDescription` finds in a description of the form that Ceph prints.
use ceph_exporter.Base.{
  ℕ, ◌≡◌, refl, sym, ◌∙◌, inl, inr, Bool-cases, Bool, true, false, Option, none, some, [], ◌∷◌,
  ◌++◌, Text, codes, is_digit, Lacks, arith, ◌==◌,
}
use mathlib.Core.List.{append_assoc, append-nil}
use mathlib.Core.Path.{subst}
use ceph_exporter.Mds.Operations.{
  OpDesc, Then, is_word, is_hex, is_any, ends_inode, one, end_of_inode, lazily, greedily, some_of,
  digit_lazily, literal, inode_at, after_op, after_cid, after_client, match_at,
  extract_op_from_description,
}

-- Every character is of the class.
abbrev pub All : (ℕ → Bool) → Text → Type 0
All p [] = Unit
All p (c ∷ s) = (p c ≡ true) × All p s

-- A text of at least two digits.
abbrev pub IsLong : Text → Type 0
IsLong (c ∷ d ∷ s) = All is_digit (c ∷ d ∷ s)
IsLong _ = ⊥

abbrev pub IsSome : (ℕ → Bool) → Text → Type 0
IsSome p [] = ⊥
IsSome p (c ∷ s) = All p (c ∷ s)

snoc : (got : Text) (c : ℕ) (s : Text) → (got ++ c ∷ []) ++ s ≡ got ++ c ∷ s
snoc got c s = append_assoc got (c ∷ []) s

is_any-digit : (c : ℕ) → is_digit c ≡ true → is_any c ≡ true
is_any-digit c h = ground arith

-- What follows is first tried where the digits end, if it cannot begin with a digit.
lazily-digits :
    (next : Then) (got ds : Text) (x : ℕ) (s : Text) (v : OpDesc)
    → ((g : Text) (c : ℕ) (t : Text) → is_digit c ≡ true → next g (c ∷ t) ≡ none)
    → All is_digit ds
    → next (got ++ ds) (x ∷ s) ≡ some v
    → lazily next got (ds ++ x ∷ s) ≡ some v
unfolding lazily
lazily-digits next got [] x s v other a h =
    let here = subst (λ g. next g (x ∷ s) ≡ some v) (append-nil got) h in rw here refl
lazily-digits next got (c ∷ ds) x s v other a h =
    rw (other got c (ds ++ x ∷ s) a.0, is_any-digit c a.0)
      (lazily-digits next (got ++ c ∷ []) ds x s v other a.1
        (subst (λ g. next g (x ∷ s) ≡ some v) (sym (snoc got c ds)) h))

-- A run under `+` or `*` is taken whole, if what follows it can go on from there.
greedily-run :
    (p : ℕ → Bool) (next : Then) (got run : Text) (x : ℕ) (s : Text) (v : OpDesc)
    → All p run
    → p x ≡ false
    → next (got ++ run) (x ∷ s) ≡ some v
    → greedily p next got (run ++ x ∷ s) ≡ some v
unfolding greedily
greedily-run p next got [] x s v a e h =
    rw (e, subst (λ g. next g (x ∷ s) ≡ some v) (append-nil got) h) refl
greedily-run p next got (c ∷ run) x s v a e h =
    rw
      (
        a.0,
        greedily-run p next (got ++ c ∷ []) run x s v a.1 e
            (subst (λ g. next g (x ∷ s) ≡ some v) (sym (snoc got c run)) h),
      )
      refl

-- A character that a text lacks is not found by going back over it.
greedily-Lacks :
    (p : ℕ → Bool) (k : ℕ) (next : Text → Option OpDesc) (got s : Text)
    → Lacks k s
    → greedily p (λ skipped. one (λ c. c == k) next) got s ≡ none
unfolding greedily
greedily-Lacks p k next got [] l = refl
greedily-Lacks p k next got (c ∷ s) l = elim (Bool-cases (p c)) [
  | inl e ↦ rw (e, greedily-Lacks p k next (got ++ c ∷ []) s l.1, l.0) refl
  | inr e ↦ rw (e, l.0) refl
]

literal-append : (ps s : Text) (next : Text → Option OpDesc) → literal ps next (ps ++ s) ≡ next s
unfolding literal
literal-append [] s next = refl
literal-append (p ∷ ps) s next = ground (arith, literal-append ps s next)

-- Two digits or more, and what follows them, if it does not begin with a digit.
digit_lazily-IsLong :
    (next : Then) (ds : Text) (x : ℕ) (s : Text) (v : OpDesc)
    → ((g : Text) (c : ℕ) (t : Text) → is_digit c ≡ true → next g (c ∷ t) ≡ none)
    → IsLong ds
    → next ds (x ∷ s) ≡ some v
    → digit_lazily next (ds ++ x ∷ s) ≡ some v
unfolding digit_lazily
digit_lazily-IsLong next [] x s v other l h = absurd l
digit_lazily-IsLong next (c ∷ []) x s v other l h = absurd l
digit_lazily-IsLong next (c ∷ d ∷ ds) x s v other l h =
    rw (l.0, is_any-digit d l.1.0) (lazily-digits next (c ∷ d ∷ []) ds x s v other l.1.1 h)

some_of-IsSome :
    (p : ℕ → Bool) (next : Then) (got run : Text) (x : ℕ) (s : Text) (v : OpDesc)
    → IsSome p run
    → p x ≡ false
    → next (got ++ run) (x ∷ s) ≡ some v
    → some_of p next got (run ++ x ∷ s) ≡ some v
unfolding some_of
some_of-IsSome p next got [] x s v a e h = absurd a
some_of-IsSome p next got (c ∷ run) x s v a e h = rw a.0 (
    greedily-run p next (got ++ c ∷ []) run x s v a.1 e
      (subst (λ g. next g (x ∷ s) ≡ some v) (sym (snoc got c run)) h))

-- An inode in hexadecimal digits, and an end to it.
inode_at-append :
    (client op hex : Text) (x : ℕ) (more : Text)
    → IsSome is_hex hex
    → ends_inode x ≡ true
    → inode_at (end_of_inode client op) (codes "0x" ++ (hex ++ x ∷ more))
      ≡ some (record { fs_op_type = op; inode = codes "0x" ++ hex; client_id = client })
unfolding inode_at
inode_at-append client op hex x more a e =
    let found =
      literal-append (codes "0x") (hex ++ x ∷ more)
        (some_of is_hex (end_of_inode client op) (codes "0x"))
      ∙ some_of-IsSome is_hex (end_of_inode client op) (codes "0x") hex x more _ a (ground arith)
          (rw e refl) in
    rw found refl

hex-Lacks : (hex s : Text) → All is_hex hex → Lacks b'#' s → Lacks b'#' (hex ++ s)
hex-Lacks [] s a l = l
hex-Lacks (c ∷ hex) s a l = (ground arith, hex-Lacks hex s a.1 l)

-- The description of a request by a client: its operation and the inode in hexadecimal digits.
abbrev pub description : Text → Text → Text → Text → Text → Text
description client tid op hex more =
    codes "client_request(client."
    ++ (client ++ b':' ∷ (tid ++ b' ' ∷ (op ++ b' ' ∷ b'#' ∷ (codes "0x" ++ (hex ++ more)))))

after_op-append :
    (client op hex : Text) (x : ℕ) (more : Text)
    → IsSome is_hex hex
    → ends_inode x ≡ true
    → Lacks b'#' (x ∷ more)
    → after_op client op (b' ' ∷ b'#' ∷ (codes "0x" ++ (hex ++ x ∷ more)))
      ≡ some (record { fs_op_type = op; inode = codes "0x" ++ hex; client_id = client })
unfolding after_op greedily
after_op-append client op [] x more a e l = absurd a
after_op-append client op (c ∷ hex) x more a e l =
    rw
      (greedily-Lacks is_any b'#' (inode_at (end_of_inode client op)) (b'#' ∷ [])
        (codes "0x" ++ (c ∷ hex ++ x ∷ more)) (refl, (refl, hex-Lacks (c ∷ hex) (x ∷ more) a l)))
      (inode_at-append client op (c ∷ hex) x more a e)

-- In the description of a request by a client, with at least two digits in the number of the client
-- and in that of the request, a word for the operation, an inode in hexadecimal digits, and behind it
-- an end to the inode and no further `#`, the operation, the inode and the client are found.
pub extract-description :
    (client tid op hex : Text) (x : ℕ) (more : Text)
    → IsLong client
    → IsLong tid
    → IsSome is_word op
    → IsSome is_hex hex
    → ends_inode x ≡ true
    → Lacks b'#' (x ∷ more)
    → extract_op_from_description (description client tid op hex (x ∷ more))
      ≡ some (record { fs_op_type = op; inode = codes "0x" ++ hex; client_id = client })
unfolding extract_op_from_description match_at after_client after_cid
extract-description client tid op hex x more lc lt wo ho e l =
    let end = b' ' ∷ b'#' ∷ (codes "0x" ++ (hex ++ x ∷ more)) in
    let at_op =
      some_of-IsSome is_word (after_op client) [] op b' ' _ _ wo refl
        (after_op-append client op hex x more ho e l) in
    let at_tid =
      digit_lazily-IsLong (after_cid client) tid b' ' (op ++ end) _ (λ g c t d. ground arith) lt
        at_op in
    let at_client =
      digit_lazily-IsLong after_client client b':' (tid ++ b' ' ∷ (op ++ end)) _
        (λ g c t d. ground arith) lc at_tid in
    let found =
      literal-append (codes "client_request(client.") (client ++ b':' ∷ (tid ++ b' ' ∷ (op ++ end)))
        (digit_lazily after_client)
      ∙ at_client in
    rw found refl
