-- ===== src/Mds/Operations.antt =====
-- `extractOpFromDescription` of ceph/mds.go with its regular expression. A part of the expression
-- takes what follows it as a function of the text it has matched and of the rest, and tries its own
-- ways in the order of Go's regexp package.
pub mod Description
use ceph_exporter.Base.{
  ℕ, ◌≡◌, refl, ap, ◌∙◌, Bool, true, false, not, ◌&&◌, ◌||◌, Option, none, some, List, [], ◌∷◌,
  ◌++◌, Text, codes, is_digit, leb, if◌then◌else◌, arith, ◌==◌,
}

pub record OpDesc : Type 0 where
  pub fs_op_type : Text
  pub inode : Text
  pub client_id : Text

abbrev pub Then : Type 0
Then = Text → Text → Option OpDesc

abbrev pub or_else : Option OpDesc → Option OpDesc → Option OpDesc
or_else (some d) other = some d
or_else none other = other

abbrev pub is_space : ℕ → Bool
is_space c = c == 9 || c == 10 || c == 12 || c == 13 || c == 32

abbrev is_letter : ℕ → Bool
is_letter c = leb b'A' c && leb c b'Z' || leb b'a' c && leb c b'z'

abbrev pub is_word : ℕ → Bool
is_word c = is_digit c || is_letter c || c == b'_'

abbrev pub is_hex : ℕ → Bool
is_hex c = is_digit c || leb b'a' c && leb c b'f' || leb b'A' c && leb c b'F'

-- `.`
abbrev pub is_any : ℕ → Bool
is_any c = not (c == 10)

-- [^a-zA-Z\d:]
abbrev pub ends_inode : ℕ → Bool
ends_inode c = not (is_letter c || is_digit c || c == b':')

-- `.*?`, after what is matched already
unfoldable pub lazily : Then → Text → Text → Option OpDesc
lazily next got [] = next got []
lazily next got (c ∷ s) =
    let longer = lazily next (got ++ c ∷ []) s in
    or_else (next got (c ∷ s)) (if is_any c then longer else none)

-- A class under `*`, after what is matched already
unfoldable pub greedily : (ℕ → Bool) → Then → Text → Text → Option OpDesc
greedily p next got [] = next got []
greedily p next got (c ∷ s) =
    let longer = greedily p next (got ++ c ∷ []) s in
    or_else (if p c then longer else none) (next got (c ∷ s))

-- A class under `+`
unfoldable pub some_of : (ℕ → Bool) → Then → Text → Text → Option OpDesc
unfolding greedily
some_of p next got [] = none
some_of p next got (c ∷ s) = if p c then greedily p next (got ++ c ∷ []) s else none

-- [0-9].+?
unfoldable pub digit_lazily : Then → Text → Option OpDesc
unfolding lazily
digit_lazily next [] = none
digit_lazily next (c ∷ []) = none
digit_lazily next (c ∷ d ∷ s) = if is_digit c && is_any d then lazily next (c ∷ d ∷ []) s else none

-- One character, and what follows.
abbrev pub one : (ℕ → Bool) → (Text → Option OpDesc) → Text → Option OpDesc
one p next [] = none
one p next (c ∷ s) = if p c then next s else none

unfoldable pub literal : Text → (Text → Option OpDesc) → Text → Option OpDesc
literal [] next s = next s
literal (p ∷ ps) next [] = none
literal (p ∷ ps) next (c ∷ s) = let rest = literal ps next s in if c == p then rest else none

abbrev pub end_of_inode : Text → Text → Then
end_of_inode client op inode =
    one ends_inode (λ s. some (record { fs_op_type = op; inode = inode; client_id = client }))

-- 0x[0-9a-fA-F]+|[0-9]+
unfoldable pub inode_at : Then → Text → Option OpDesc
unfolding some_of literal
inode_at next s =
    or_else (literal (codes "0x") (some_of is_hex next (codes "0x")) s) (some_of is_digit next [] s)

-- \s.*#
unfoldable pub after_op : Text → Then
unfolding greedily inode_at
after_op client op =
    one is_space
      (greedily is_any (λ skipped. one (λ c. c == b'#') (inode_at (end_of_inode client op))) [])

unfoldable pub after_cid : Text → Then
unfolding some_of after_op
after_cid client cid = one is_space (some_of is_word (after_op client) [])

unfoldable pub after_client : Then
unfolding digit_lazily after_cid
after_client client = one (λ c. c == b':') (digit_lazily (after_cid client))

unfoldable pub match_at : Text → Option OpDesc
unfolding literal digit_lazily after_client
match_at = literal (codes "client_request(client.") (digit_lazily after_client)

-- The leftmost match; where there is none, the function returns an error.
unfoldable pub extract_op_from_description : Text → Option OpDesc
unfolding match_at
extract_op_from_description [] = none
extract_op_from_description (c ∷ s) = or_else (match_at (c ∷ s)) (extract_op_from_description s)
