-- ===== src/Exporter/Interleaving.antt =====
-- The channel that the goroutines of `Exporter.Collect`, ceph/exporter.go, share: each sends its
-- metrics in its own order, and nothing orders those of different goroutines.
use ceph_exporter.Base.{List, [], ◌∷◌, ◌++◌}
use mathlib.Core.List.{Perm, perm_middle}
use mathlib.Core.List.Perm as Perms

abbrev pub concat {ℓ} : {A : Type ℓ} → List (List A) → List A
concat [] = []
concat (xs ∷ xss) = xs ++ concat xss

-- What can be received, while each goroutine has still to send the list that is its own.
pub data Received {ℓ} {A : Type ℓ} : List (List A) → List A → Type ℓ where
  closed : Received [] []
  returned : {outs : List (List A)} {sent : List A} → Received outs sent → Received ([] ∷ outs) sent
  sends :
      (before : List (List A)) (x : A) (xs : List A) (after : List (List A)) {sent : List A}
      → Received (before ++ (xs ∷ after)) sent
      → Received (before ++ ((x ∷ xs) ∷ after)) (x ∷ sent)

concat-middle {ℓ} :
    {A : Type ℓ} (before : List (List A)) (x : A) (xs : List A) (after : List (List A))
    → Perm (concat (before ++ ((x ∷ xs) ∷ after))) (x ∷ concat (before ++ (xs ∷ after)))
concat-middle [] x xs after = Perms.refl _
concat-middle (ys ∷ before) x xs after =
    Perms.trans (Perms.append_left ys (concat-middle before x xs after)) (perm_middle ys _)

pub Received-Perm {ℓ} :
    {A : Type ℓ} {outs : List (List A)} {sent : List A}
    → Received outs sent
    → Perm sent (concat outs)
Received-Perm closed = Perms.refl []
Received-Perm (returned r) = Received-Perm r
Received-Perm (sends before x xs after r) =
    Perms.trans (Perms.cons x (Received-Perm r)) (Perms.symm (concat-middle before x xs after))
