-- ===== src/Base/Maps.antt =====
-- Go's maps with comparable keys, as association lists with one entry for each key. The order of
-- the entries stands for the order in which a `range` visits them, which Go leaves open.
use mathlib.Core.Path.{◌≡◌, refl}
use mathlib.Core.Logic.{◌↔◌, inl, inr}
use mathlib.Core.Bool.{Bool, true, false, ◌&&◌}
use mathlib.Core.Option.{Option, none, some}
use mathlib.Core.List.{List, [], ◌∷◌}
use native.Mathlib.Omega.{arith}
use Prim.Native.Nat.{ℕ}
use Prim.Native.String.{String}
use text.Mathlib.Text.{◌==◌ as string_beq}
use text.Mathlib.TextEquality.{eq_iff}
use ceph_exporter.Base.Texts.{Text, text_eq}
use ceph_exporter.Base.Tests.{◌==◌ as nat_beq, ==_iff, if◌then◌else◌, Bool-cases}

-- Keys that Go compares with `==`.
pub record Eq {ℓ} (A : Type ℓ) : Type ℓ where
  pub beq : A → A → Bool
  pub beq_iff : (a b : A) → (beq a b ≡ true) ↔ (a ≡ b)

instance abbrev pub nat_eq : Eq ℕ
nat_eq = record { beq = nat_beq; beq_iff = ==_iff }

instance abbrev pub string_eq : Eq String
string_eq = record { beq = string_beq; beq_iff = eq_iff }

abbrev pub list_beq : List String → List String → Bool
list_beq [] [] = true
list_beq (a ∷ s) (b ∷ t) = string_beq a b && list_beq s t
list_beq _ _ = false

pub list_beq_iff : (s t : List String) → (list_beq s t ≡ true) ↔ (s ≡ t)
list_beq_iff [] [] = ground arith
list_beq_iff [] (b ∷ t) = ground arith
list_beq_iff (a ∷ s) [] = ground arith
list_beq_iff (a ∷ s) (b ∷ t) = ground (arith, eq_iff a b, list_beq_iff s t)

instance abbrev pub strings_eq : Eq (List String)
strings_eq = record { beq = list_beq; beq_iff = list_beq_iff }

pub text_eq_iff : (s t : Text) → (text_eq s t ≡ true) ↔ (s ≡ t)
text_eq_iff [] [] = ground arith
text_eq_iff [] (b ∷ t) = ground arith
text_eq_iff (a ∷ s) [] = ground arith
text_eq_iff (a ∷ s) (b ∷ t) = ground (arith, ==_iff a b, text_eq_iff s t)

instance abbrev pub text_key : Eq Text
text_key = record { beq = text_eq; beq_iff = text_eq_iff }

abbrev pub beq {ℓ} : {A : Type ℓ} ⦃e : Eq A⦄ → A → A → Bool
beq ⦃e⦄ = e.beq

module _ {ℓ κ} {K : Type ℓ} {V : Type κ} ⦃e : Eq K⦄ where
  unfoldable pub lookup : K → List (K × V) → Option V
  lookup k [] = none
  lookup k ((j, v) ∷ m) = if e.beq j k then some v else lookup k m

  -- m[k] = v
  unfoldable pub insert : K → V → List (K × V) → List (K × V)
  insert k v [] = (k, v) ∷ []
  insert k v ((j, w) ∷ m) = if e.beq j k then (j, v) ∷ m else (j, w) ∷ insert k v m

  -- delete(m, k)
  unfoldable pub delete : K → List (K × V) → List (K × V)
  delete k [] = []
  delete k ((j, w) ∷ m) = let rest = delete k m in if e.beq j k then rest else (j, w) ∷ rest

  pub lookup-insert :
      (k j : K) (v : V) (m : List (K × V))
      → lookup j (insert k v m) ≡ (if e.beq k j then some v else lookup j m)
  unfolding lookup insert
  lookup-insert k j v [] = refl
  lookup-insert k j v ((i, w) ∷ m) =
      ground (arith, e.beq_iff k j, e.beq_iff i k, e.beq_iff i j, lookup-insert k j v m)

  pub lookup-delete :
      (k j : K) (m : List (K × V))
      → lookup j (delete k m) ≡ (if e.beq k j then none else lookup j m)
  unfolding lookup delete
  lookup-delete k j [] = ground arith
  lookup-delete k j ((i, w) ∷ m) =
      ground (arith, e.beq_iff k j, e.beq_iff i k, e.beq_iff i j, lookup-delete k j m)

  -- No entry of `m` has the key `k`.
  abbrev pub Fresh : K → List (K × V) → Type 0
  Fresh k [] = Unit
  Fresh k ((j, w) ∷ m) = (e.beq j k ≡ false) × Fresh k m

  -- One entry for each key.
  abbrev pub IsMap : List (K × V) → Type 0
  IsMap [] = Unit
  IsMap ((j, w) ∷ m) = Fresh j m × IsMap m

  Fresh-insert :
      (i k : K) (v : V) (m : List (K × V)) → e.beq k i ≡ false → Fresh i m → Fresh i (insert k v m)
  unfolding insert
  Fresh-insert i k v [] h f = (h, tt)
  Fresh-insert i k v ((j, w) ∷ m) h f = ground (arith, Fresh-insert i k v m h f.1)

  pub insert-IsMap : (k : K) (v : V) (m : List (K × V)) → IsMap m → IsMap (insert k v m)
  unfolding insert
  insert-IsMap k v [] h = (tt, tt)
  insert-IsMap k v ((j, w) ∷ m) h = elim (Bool-cases (e.beq j k)) [
    | inl same ↦ rw same h
    | inr other ↦ rw other (
      Fresh-insert j k v m (ground (arith, e.beq_iff j k, e.beq_iff k j)) h.0,
      insert-IsMap k v m h.1,
    )
  ]

  Fresh-delete : (i k : K) (m : List (K × V)) → Fresh i m → Fresh i (delete k m)
  unfolding delete
  Fresh-delete i k [] f = tt
  Fresh-delete i k ((j, w) ∷ m) f = ground (arith, Fresh-delete i k m f.1)

  pub delete-IsMap : (k : K) (m : List (K × V)) → IsMap m → IsMap (delete k m)
  unfolding delete
  delete-IsMap k [] h = tt
  delete-IsMap k ((j, w) ∷ m) h = ground (arith, Fresh-delete j k m h.0, delete-IsMap k m h.1)
