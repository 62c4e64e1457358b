-- ===== src/Json.antt =====
-- JSON replies and encoding/json: `json.Unmarshal` into the program's types.
-- A buffer is the value that it holds, or `none` where it is not well formed. A number is kept as
-- its literal, as `json.Number` does.
use ceph_exporter.Base.{
  ℕ, ◌+◌, String, Bool, ◌&&◌, Option, none, some, ◌>>=◌, List, [], ◌∷◌, map, ℤ, codes, text_eq, leb,
  ltb, ◌^◌, insert, string_eq, if◌then◌else◌,
}
use ceph_exporter.Base.Result.{ok, err}
use ceph_exporter.Float.{Float64, parse}
use ceph_exporter.Version.Decimal.{atoi, unsigned}

mutual
  pub data Json : Type 0 where
    null : Json
    bool : Bool → Json
    num : String → Json
    str : String → Json
    arr : Items → Json
    obj : Fields → Json

  pub data Items : Type 0 where
    nil : Items
    cons : Json → Items → Items

  pub data Fields : Type 0 where
    end : Fields
    field : String → Json → Fields → Fields

abbrev pub Buffer : Type 0
Buffer = Option Json

abbrev pub to_lower : ℕ → ℕ
to_lower c = if leb b'A' c && leb c b'Z' then c + 32 else c

-- encoding/json matches a key without regard to case, here over ASCII.
unfoldable pub same_key : String → String → Bool
same_key a b = text_eq (map to_lower (codes a)) (map to_lower (codes b))

abbrev or_else : Option Json → Option Json → Option Json
or_else (some j) o = some j
or_else none o = o

abbrev non_null : Json → Option Json
non_null null = none
non_null j = some j

-- The value of a key: the last that is given and is not null.
unfoldable pub find : String → Fields → Option Json
unfolding same_key
find name end = none
find name (field key j rest) =
    or_else (find name rest) (if same_key key name then non_null j else none)

-- A decoder fails where `Unmarshal` returns an error.
abbrev pub Decoder : Type 0 → Type 0
Decoder A = Json → Option A

-- A struct, an object; null leaves it at its zero.
abbrev pub fields : Decoder Fields
fields null = some end
fields (obj fs) = some fs
fields _ = none

-- One field of a struct, which keeps its zero when the key is missing or null.
unfoldable pub get : {A : Type 0} → String → A → Decoder A → Fields → Option A
unfolding find
get name zero_value d fs = elim (find name fs) [ none ↦ some zero_value | some j ↦ d j ]

abbrev pub string : Decoder String
string (str s) = some s
string _ = none

abbrev pub boolean : Decoder Bool
boolean (bool b) = some b
boolean _ = none

-- int, int64: an integer literal in the range of the type
abbrev pub int : Decoder ℤ
int (num s) = elim (atoi (codes s)) [ ok n ↦ some n | err e ↦ none ]
int _ = none

abbrev pub float64 : (fl : Float64) → Decoder fl.Value
float64 fl (num s) = parse fl s
float64 fl _ = none

-- json.Number: the literal, empty when missing. A text is taken too, if it is a number; it is
-- tested here by the conversion that the program makes of it.
abbrev pub number : (fl : Float64) → Decoder String
number fl (num s) = some s
number fl (str s) = elim (parse fl s) [ none ↦ none | some x ↦ some s ]
number fl _ = none

unfoldable pub items : {A : Type 0} → A → Decoder A → Items → Option (List A)
items zero_value d nil = some []
items zero_value d (cons null rest) = do xs ← items zero_value d rest; some (zero_value ∷ xs)
items zero_value d (cons j rest) = do x ← d j; xs ← items zero_value d rest; some (x ∷ xs)

-- A slice; a null item is left at its zero.
abbrev pub slice : {A : Type 0} → A → Decoder A → Decoder (List A)
slice zero_value d null = some []
slice zero_value d (arr xs) = items zero_value d xs
slice zero_value d _ = none

-- A map with string keys, which are matched exactly; a null value leaves the zero of its type.
unfoldable pub read_map :
    {A : Type 0} → A → Decoder A → List (String × A) → Fields → Option (List (String × A))
read_map zero_value d m end = some m
read_map zero_value d m (field key null rest) = read_map zero_value d (insert key zero_value m) rest
read_map zero_value d m (field key j rest) = do a ← d j; read_map zero_value d (insert key a m) rest

abbrev pub map_of : {A : Type 0} → A → Decoder A → Decoder (List (String × A))
map_of zero_value d null = some []
map_of zero_value d (obj fs) = read_map zero_value d [] fs
map_of zero_value d _ = none

-- A json.RawMessage: any value.
abbrev pub raw : Decoder Json
raw j = some j

-- uint, uint64: a literal of digits, in the range of the type
abbrev pub uint : Decoder ℕ
uint (num s) = elim (unsigned (codes s)) [
  | none ↦ none
  | some n ↦ if ltb n (2 ^ 64) then some n else none
]
uint _ = none

-- json.Unmarshal(buf, &v)
abbrev pub unmarshal : {A : Type 0} → Decoder A → Buffer → Option A
unmarshal d none = none
unmarshal d (some j) = d j
