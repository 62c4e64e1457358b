-- ===== src/Version/Decimal.antt =====
-- Decimal numbers: `%d` of Go's fmt and `strconv.Atoi`, over 64-bit integers.
use ceph_exporter.Base.{
  ℕ, zero, suc, ◌+◌, ◌-◌, ◌*◌, ◌/◌, ◌%◌, ◌^◌, ◌<◌, ◌≡◌, refl, Bool, true, false, [], ◌∷◌, ◌++◌,
  arith, ltb, leb, ◌==◌, if◌then◌else◌, Option, none, some, ◌>>=◌, ℤ, pos, negsuc, Text, is_digit,
  Lacks, Bool-cases, inl, inr,
}
use ceph_exporter.Base.Result.{Result, ok, err}

-- The digits of `n`, most significant first; each round drops one digit, so fuel above `n` is
-- enough.
digits_of : ℕ → ℕ → Text
digits_of zero n = []
digits_of (suc fuel) n =
    let more = digits_of fuel (n / 10) ++ (b'0' + n % 10) ∷ [] in
    if ltb n 10 then (b'0' + n) ∷ [] else more

unfoldable pub print_nat : ℕ → Text
unfolding digits_of
print_nat n = digits_of (suc n) n

-- %d
unfoldable pub print_int : ℤ → Text
print_int (pos n) = print_nat n
print_int (negsuc n) = b'-' ∷ print_nat (suc n)

-- The two ways in which `strconv.Atoi` refuses a text.
pub data NumError : Type 0 where
  syntax range : NumError

-- The digits of an unsigned number, after those that make `n`.
digits_value : ℕ → Text → Option ℕ
digits_value n [] = some n
digits_value n (c ∷ s) =
    let rest = digits_value (n * 10 + (c - b'0')) s in if is_digit c then rest else none

-- At least one digit.
unfoldable pub unsigned : Text → Option ℕ
unfolding digits_value
unsigned [] = none
unsigned (c ∷ s) = digits_value 0 (c ∷ s)

abbrev pub int64_bound : ℕ
int64_bound = 2 ^ 63

-- -n
abbrev negate : ℕ → ℤ
negate zero = pos 0
negate (suc n) = negsuc n

abbrev in_range : Bool → ℤ → Result NumError ℤ
in_range fits z = if fits then ok z else err range

-- The sign, then the digits, then the range of an `int`.
signed : Bool → Text → Result NumError ℤ
unfolding unsigned
signed minus s = elim (unsigned s) [
  | none ↦ err syntax
  | some n ↦
      if minus
      then in_range (leb n int64_bound) (negate n)
      else in_range (ltb n int64_bound) (pos n)
]

unfoldable pub atoi : Text → Result NumError ℤ
unfolding signed
atoi [] = err syntax
atoi (c ∷ s) =
    if c == b'-' then signed true s else if c == b'+' then signed false s else signed false (c ∷ s)

digits_value-append :
    (n : ℕ) (s t : Text) → digits_value n (s ++ t) ≡ (digits_value n s >>= λ m. digits_value m t)
unfolding digits_value
digits_value-append n [] t = refl
digits_value-append n (c ∷ s) t = ground (arith, digits_value-append (n * 10 + (c - b'0')) s t)

last_digit : (n : ℕ) → digits_value (n / 10) ((b'0' + n % 10) ∷ []) ≡ some n
unfolding digits_value
last_digit n = ground arith

digits_value-digits_of : (fuel n : ℕ) → n < fuel → digits_value 0 (digits_of fuel n) ≡ some n
unfolding digits_of
digits_value-digits_of zero n h = elim h [ ]
digits_value-digits_of (suc fuel) n h = elim (Bool-cases (ltb n 10)) [
  | inl small ↦ rw small (unfold digits_value in ground arith)
  | inr large ↦
      rw (large, digits_value-append, digits_value-digits_of fuel (n / 10) (ground arith))
        (last_digit n)
]

-- Digits only.
abbrev pub IsDigits : Text → Type 0
IsDigits [] = Unit
IsDigits (c ∷ s) = (is_digit c ≡ true) × IsDigits s

-- At least one digit, and digits only: `\d+`.
abbrev pub IsNumber : Text → Type 0
IsNumber [] = ⊥
IsNumber (c ∷ s) = (is_digit c ≡ true) × IsDigits s

IsNumber-append : (s : Text) (c : ℕ) → IsNumber s → is_digit c ≡ true → IsNumber (s ++ c ∷ [])
IsNumber-append [] c h d = absurd h
IsNumber-append (x ∷ []) c h d = (h.0, (d, tt))
IsNumber-append (x ∷ y ∷ s) c h d = (h.0, IsNumber-append (y ∷ s) c h.1 d)

digits_of-IsNumber : (fuel n : ℕ) → n < fuel → IsNumber (digits_of fuel n)
unfolding digits_of
digits_of-IsNumber zero n h = elim h [ ]
digits_of-IsNumber (suc fuel) n h = elim (Bool-cases (ltb n 10)) [
  | inl small ↦ rw small (ground arith, tt)
  | inr large ↦ rw large (
      IsNumber-append (digits_of fuel (n / 10)) (b'0' + n % 10)
        (digits_of-IsNumber fuel (n / 10) (ground arith)) (ground arith))
]

pub print_nat-IsNumber : (n : ℕ) → IsNumber (print_nat n)
unfolding print_nat
print_nat-IsNumber n = digits_of-IsNumber (suc n) n (omega arith)

unsigned-print_nat : (n : ℕ) → unsigned (print_nat n) ≡ some n
unfolding print_nat
unsigned-print_nat n =
    go (digits_of (suc n) n) (digits_of-IsNumber (suc n) n (omega arith))
      (digits_value-digits_of (suc n) n (omega arith))
  where
    go : (s : Text) → IsNumber s → digits_value 0 s ≡ some n → unsigned s ≡ some n
    go [] d e = absurd d
    go (c ∷ s) d e = unfold unsigned in e

-- A text of digits is read without a sign.
atoi-IsNumber : (s : Text) → IsNumber s → atoi s ≡ signed false s
unfolding atoi
atoi-IsNumber [] d = absurd d
atoi-IsNumber (c ∷ s) d = ground arith

-- Reading back a printed number gives the number, when it is an `int`.
pub atoi-print_nat : (n : ℕ) → n < int64_bound → atoi (print_nat n) ≡ ok (pos n)
unfolding signed
atoi-print_nat n h =
    rw (atoi-IsNumber (print_nat n) (print_nat-IsNumber n), signed, unsigned-print_nat n)
      (ground arith)

-- A number holds no character that is not a digit.
pub IsDigits-Lacks : (c : ℕ) (s : Text) → is_digit c ≡ false → IsDigits s → Lacks c s
IsDigits-Lacks c [] h d = tt
IsDigits-Lacks c (x ∷ s) h d = (ground arith, IsDigits-Lacks c s h d.1)

pub print_nat-Lacks : (c n : ℕ) → is_digit c ≡ false → Lacks c (print_nat n)
print_nat-Lacks c n h = go (print_nat n) (print_nat-IsNumber n)
  where
    go : (s : Text) → IsNumber s → Lacks c s
    go [] d = absurd d
    go (x ∷ s) d = IsDigits-Lacks c (x ∷ s) h d
