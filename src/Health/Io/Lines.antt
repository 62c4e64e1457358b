-- ===== src/Health/Io/Lines.antt =====
-- The rates in the lines that Ceph prints, as `collectRecoveryClientIO` of ceph/health.go reads them.
use ceph_exporter.Base.{
  ℕ, ◌≡◌, ◌∙◌, refl, Bool, true, false, Option, none, some, [], ◌∷◌, ◌++◌, Text, codes, is_digit,
  String, starts_with,
}
use ceph_exporter.Version.Decimal.{print_nat, print_nat-IsNumber, IsNumber, IsDigits}
use ceph_exporter.Health.Messages.{
  span, span-append, find_run, find_run-append, then_literal, anything,
}
use ceph_exporter.Health.Io.Patterns.{
  only_marks, unit_before, is_multiple, is_byte, find_with, with_run, byte_rate, number_before,
  client_io_ops,
}

IsNumber-IsDigits : (ds : Text) → IsNumber ds → IsDigits ds
IsNumber-IsDigits [] h = tt
IsNumber-IsDigits (c ∷ s) h = h

-- A number is found if what stands behind it is what is asked, and else passed over.
find_with-append :
    (after : Text → Option Text) (ds : Text) (c : ℕ) (s u : Text)
    → IsNumber ds
    → is_digit c ≡ false
    → after (c ∷ s) ≡ some u
    → find_with after (ds ++ c ∷ s) ≡ some (ds, u)
unfolding find_with
find_with-append after [] c s u d h a = absurd d
find_with-append after (x ∷ ds) c s u d h a = rw (span-append (x ∷ ds) c s d h, with_run, a) refl

find_with-skip :
    (after : Text → Option Text) (ds : Text) (c : ℕ) (s : Text)
    → IsDigits ds
    → is_digit c ≡ false
    → after (c ∷ s) ≡ none
    → find_with after (ds ++ c ∷ s) ≡ find_with after (c ∷ s)
unfolding find_with
find_with-skip after [] c s d h a = refl
find_with-skip after (x ∷ ds) c s d h a =
    rw (span-append (x ∷ ds) c s d h, with_run, a) (find_with-skip after ds c s d.1 h a)

find_run-skip :
    (after : Text → Bool) (ds : Text) (c : ℕ) (s : Text)
    → IsDigits ds
    → is_digit c ≡ false
    → after (c ∷ s) ≡ false
    → find_run is_digit after (ds ++ c ∷ s) ≡ find_run is_digit after (c ∷ s)
unfolding find_run
find_run-skip after [] c s d h a = refl
find_run-skip after (x ∷ ds) c s d h a =
    rw (span-append (x ∷ ds) c s d h, a) (find_run-skip after ds c s d.1 h a)

-- The units, as Ceph prints them.
pub data Multiple : Type 0 where
  kilo mega giga : Multiple

abbrev pub printed : Multiple → Text
printed kilo = codes "kB"
printed mega = codes "MB"
printed giga = codes "GB"

abbrev pub bytes_in : Multiple → ℕ
bytes_in kilo = 1000
bytes_in mega = 1000000
bytes_in giga = 1000000000

-- A rate, what stands behind it, and the rest of the line.
abbrev pub rate_text : ℕ → Multiple → String → Text → Text
rate_text n u what t = print_nat n ++ (codes " " ++ (printed u ++ (codes what ++ t)))

abbrev pub ops_text : ℕ → String → Text → Text
ops_text n what t = print_nat n ++ (codes what ++ t)

abbrev rate_of : String → Text → Option Text
rate_of what = unit_before is_multiple is_byte (codes what)

rate_found :
    (what : String) (n : ℕ) (u : Multiple) (s : String) (t : Text)
    → starts_with (codes what) (codes s ++ t) ≡ true
    → find_with (rate_of what) (rate_text n u s t) ≡ some (print_nat n, printed u)
rate_found what n kilo s t h =
    find_with-append _ (print_nat n) b' ' _ (codes "kB") (print_nat-IsNumber n) refl (rw h refl)
rate_found what n mega s t h =
    find_with-append _ (print_nat n) b' ' _ (codes "MB") (print_nat-IsNumber n) refl (rw h refl)
rate_found what n giga s t h =
    find_with-append _ (print_nat n) b' ' _ (codes "GB") (print_nat-IsNumber n) refl (rw h refl)

rate_passed :
    (what : String) (n : ℕ) (u : Multiple) (s : String) (t : Text)
    → starts_with (codes what) (codes s ++ t) ≡ false
    → find_with (rate_of what) (rate_text n u s t) ≡ find_with (rate_of what) (codes s ++ t)
unfolding find_with span
rate_passed what n kilo s t h =
    find_with-skip _ (print_nat n) b' ' _ (IsNumber-IsDigits _ (print_nat-IsNumber n)) refl
      (rw h refl)
rate_passed what n mega s t h =
    find_with-skip _ (print_nat n) b' ' _ (IsNumber-IsDigits _ (print_nat-IsNumber n)) refl
      (rw h refl)
rate_passed what n giga s t h =
    find_with-skip _ (print_nat n) b' ' _ (IsNumber-IsDigits _ (print_nat-IsNumber n)) refl
      (rw h refl)

-- A rate is not a number of operations.
rate_passed_by_ops :
    (literal : Text) (more : Text → Bool) (n : ℕ) (u : Multiple) (s : String) (t : Text)
    → find_run is_digit (then_literal (codes " op/s" ++ literal) more) (rate_text n u s t)
      ≡ find_run is_digit (then_literal (codes " op/s" ++ literal) more) (codes s ++ t)
unfolding find_run span then_literal
rate_passed_by_ops literal more n kilo s t =
    find_run-skip _ (print_nat n) b' ' _ (IsNumber-IsDigits _ (print_nat-IsNumber n)) refl refl
rate_passed_by_ops literal more n mega s t =
    find_run-skip _ (print_nat n) b' ' _ (IsNumber-IsDigits _ (print_nat-IsNumber n)) refl refl
rate_passed_by_ops literal more n giga s t =
    find_run-skip _ (print_nat n) b' ' _ (IsNumber-IsDigits _ (print_nat-IsNumber n)) refl refl

-- The lines of the clients: up to Hammer with the operations of both kinds together, since Jewel
-- apart.
abbrev pub hammer_line : ℕ → Multiple → ℕ → Multiple → ℕ → Text
hammer_line r u w v n =
    codes "client io " ++ rate_text r u "/s rd, " (rate_text w v "/s wr, " (ops_text n " op/s" []))

abbrev pub jewel_line : ℕ → Multiple → ℕ → Multiple → ℕ → ℕ → Text
jewel_line r u w v n m =
    codes "client io "
    ++ rate_text r u "/s rd, "
        (rate_text w v "/s wr, " (ops_text n " op/s rd, " (ops_text m " op/s wr" [])))

pub read_rate :
    (r : ℕ) (u : Multiple) (t : Text)
    → byte_rate "/s rd" (codes "client io " ++ rate_text r u "/s rd, " t)
      ≡ some (print_nat r, printed u)
unfolding byte_rate find_with span
read_rate r u t = rate_found "/s rd" r u "/s rd, " t refl

pub write_rate :
    (r : ℕ) (u : Multiple) (w : ℕ) (v : Multiple) (t : Text)
    → byte_rate "/s wr" (codes "client io " ++ rate_text r u "/s rd, " (rate_text w v "/s wr, " t))
      ≡ some (print_nat w, printed v)
unfolding byte_rate find_with span
write_rate r u w v t =
    rate_passed "/s wr" r u "/s rd, " (rate_text w v "/s wr, " t) refl
    ∙ rate_found "/s wr" w v "/s wr, " t refl

-- The two rates are passed over where a number of operations is looked for.
ops_behind_rates :
    (literal : Text) (more : Text → Bool) (r : ℕ) (u : Multiple) (w : ℕ) (v : Multiple) (t : Text)
    → find_run is_digit
        (then_literal (codes " op/s" ++ literal) more)
        (codes "client io " ++ rate_text r u "/s rd, " (rate_text w v "/s wr, " t))
      ≡ find_run is_digit (then_literal (codes " op/s" ++ literal) more) t
unfolding find_run span then_literal
ops_behind_rates literal more r u w v t =
    rate_passed_by_ops literal more r u "/s rd, " (rate_text w v "/s wr, " t)
    ∙ rate_passed_by_ops literal more w v "/s wr, " t

ops_found :
    (literal : Text) (more : Text → Bool) (n : ℕ) (s : String) (t : Text)
    → then_literal literal more (codes s ++ t) ≡ true
    → find_run is_digit
        (then_literal (codes " op/s" ++ literal) more)
        (ops_text n " op/s" (codes s ++ t))
      ≡ some (print_nat n)
unfolding then_literal
ops_found literal more n s t h =
    find_run-append _ (print_nat n) b' ' _ (print_nat-IsNumber n) refl (rw h refl)

ops_passed :
    (literal : Text) (more : Text → Bool) (n : ℕ) (s : String) (t : Text)
    → then_literal literal more (codes s ++ t) ≡ false
    → find_run is_digit
        (then_literal (codes " op/s" ++ literal) more)
        (ops_text n " op/s" (codes s ++ t))
      ≡ find_run is_digit (then_literal (codes " op/s" ++ literal) more) (codes s ++ t)
unfolding then_literal find_run span
ops_passed literal more n s t h =
    find_run-skip _ (print_nat n) b' ' _ (IsNumber-IsDigits _ (print_nat-IsNumber n)) refl
      (rw h refl)

pub hammer_total :
    (r : ℕ) (u : Multiple) (w : ℕ) (v : Multiple) (n : ℕ)
    → (client_io_ops (hammer_line r u w v n) ≡ some (print_nat n))
      × (number_before " op/s rd" (hammer_line r u w v n) ≡ none)
      × (number_before " op/s wr" (hammer_line r u w v n) ≡ none)
unfolding client_io_ops number_before find_run span then_literal
hammer_total r u w v n = (
  ops_behind_rates [] only_marks r u w v (ops_text n " op/s" [])
      ∙ ops_found [] only_marks n "" [] refl,
  ops_behind_rates (codes " rd") anything r u w v (ops_text n " op/s" [])
      ∙ ops_passed (codes " rd") anything n "" [] refl,
  ops_behind_rates (codes " wr") anything r u w v (ops_text n " op/s" [])
      ∙ ops_passed (codes " wr") anything n "" [] refl,
)

pub jewel_total :
    (r : ℕ) (u : Multiple) (w : ℕ) (v : Multiple) (n m : ℕ)
    → (client_io_ops (jewel_line r u w v n m) ≡ none)
      × (number_before " op/s rd" (jewel_line r u w v n m) ≡ some (print_nat n))
      × (number_before " op/s wr" (jewel_line r u w v n m) ≡ some (print_nat m))
unfolding client_io_ops number_before find_run span then_literal
jewel_total r u w v n m =
    let t = ops_text n " op/s rd, " (ops_text m " op/s wr" []) in
    (
      ops_behind_rates [] only_marks r u w v t
          ∙ ops_passed [] only_marks n " rd, " (ops_text m " op/s wr" []) refl
          ∙ ops_passed [] only_marks m " wr" [] refl,
      ops_behind_rates (codes " rd") anything r u w v t
          ∙ ops_found (codes " rd") anything n " rd, " (ops_text m " op/s wr" []) refl,
      ops_behind_rates (codes " wr") anything r u w v t
          ∙ ops_passed (codes " wr") anything n " rd, " (ops_text m " op/s wr" []) refl
          ∙ ops_found (codes " wr") anything m " wr" [] refl,
    )
