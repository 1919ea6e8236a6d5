-- ===== src/Base/Cases.antt =====
-- A choice between two values on a decision, when the answer is known.
use mathlib.Core.Path.{◌≡◌, refl}

pub yes_case {ℓ κ} :
    {A : Type ℓ}
    → {P : Type κ} → (d : Dec P) → P
    → (x y : A) → (elim d as (λ z. A) [ yes h ↦ x | no n ↦ y ]) ≡ x
yes_case (yes h) p x y = refl
yes_case (no n) p x y = absurd (n p)

pub no_case {ℓ κ} :
    {A : Type ℓ}
    → {P : Type κ} → (d : Dec P) → ¬ P
    → (x y : A) → (elim d as (λ z. A) [ yes h ↦ x | no n ↦ y ]) ≡ y
no_case (yes h) n x y = absurd (n h)
no_case (no n) p x y = refl
