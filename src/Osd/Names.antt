-- ===== src/Osd/Names.antt =====
-- How ceph/osd.go names an OSD and finds its labels: `osdLabelFormat`, `getOSDLabelFromID` and
-- `getOSDLabelFromName`.
use ceph_exporter.Base.{
  String, Option, none, some, ◌>>=◌, List, [], ◌∷◌, ◌++◌, ℤ, pos, Text, codes, string_of, int_eq,
  lookup, is_digit, if◌then◌else◌, ◌==◌,
}
use ceph_exporter.Base.Result.{Result, ok, err}
use ceph_exporter.Float.{Float64, of_count}
use ceph_exporter.Version.Decimal.{atoi, print_int, NumError}
use ceph_exporter.Osd.Labels.{OsdLabel, NodeMap}
use ceph_exporter.Osd.Writes.{failed, Run}

-- fmt.Sprintf(osdLabelFormat, id)
unfoldable pub osd_name : ℤ → String
unfolding print_int
osd_name id = string_of (codes "osd." ++ print_int id)

-- fmt.Sscanf(name, "osd.%d", &id): spaces, a sign and digits, whatever stands behind them.
unfoldable pub skip_spaces : Text → Text
skip_spaces [] = []
skip_spaces (c ∷ s) = let rest = skip_spaces s in if c == b' ' then rest else c ∷ s

unfoldable pub digits_of : Text → Text
digits_of [] = []
digits_of (c ∷ s) = let rest = digits_of s in if is_digit c then c ∷ rest else []

unfoldable pub signed_digits : Text → Text
unfolding digits_of
signed_digits [] = []
signed_digits (c ∷ s) =
    if c == b'-' then c ∷ digits_of s else if c == b'+' then c ∷ digits_of s else digits_of (c ∷ s)

abbrev pub ok_value : Result NumError ℤ → Option ℤ
ok_value (ok n) = some n
ok_value (err e) = none

unfoldable pub strip : Text → Text → Option Text
strip [] s = some s
strip (p ∷ ps) [] = none
strip (p ∷ ps) (c ∷ s) = let rest = strip ps s in if c == p then rest else none

unfoldable pub scan_id : Text → Option ℤ
unfolding skip_spaces signed_digits strip
scan_id name = do
  rest ← strip (codes "osd.") name
  ok_value (atoi (signed_digits (skip_spaces rest)))

module _ (fl : Float64) where
  open fl use {Value, of_int, mul, div}

  abbrev pub Labels : Type 0
  Labels = NodeMap Value

  abbrev pub zero_label : OsdLabel Value
  zero_label = record {
    id = pos 0;
    name = "";
    type = "";
    status = "";
    device_class = "";
    crush_weight = of_count fl 0;
    root = "";
    rack = "";
    host = "";
    parent = pos 0;
  }

  abbrev pub or_zero : Option (OsdLabel Value) → OsdLabel Value
  or_zero none = zero_label
  or_zero (some l) = l

  -- getOSDLabelFromID
  unfoldable pub label_from_id : Labels → ℤ → OsdLabel Value
  label_from_id labels id = or_zero (lookup id labels)

  abbrev pub scanned : Labels → Option ℤ → OsdLabel Value
  scanned labels none = zero_label
  scanned labels (some id) = label_from_id labels id

  -- getOSDLabelFromName
  unfoldable pub label_from_name : Labels → String → OsdLabel Value
  unfolding label_from_id scan_id
  label_from_name labels name = scanned labels (scan_id (codes name))

  -- The label values of an OSD, behind its name.
  abbrev pub label_values : String → OsdLabel Value → List String
  label_values name l = name ∷ l.device_class ∷ l.host ∷ l.rack ∷ l.root ∷ []

  abbrev pub as_is : Value → Value
  as_is x = x

  abbrev pub kilobytes : Value → Value
  kilobytes x = mul x (of_count fl 1024)

  abbrev pub milliseconds : Value → Value
  milliseconds x = div x (of_count fl 1000)

  -- A round with the number of an OSD, which can be a text that is none.
  abbrev pub with_id : Result NumError ℤ → (ℤ → Run Value) → Run Value
  with_id (ok id) f = f id
  with_id (err e) f = ([], failed)

  unfoldable pub labels_of : Labels → ℤ → List String
  unfolding osd_name label_from_id
  labels_of labels id = label_values (osd_name id) (label_from_id labels id)
