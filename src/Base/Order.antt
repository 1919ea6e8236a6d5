-- ===== src/Base/Order.antt =====
-- Sums by `^` over a list, and orders in which the threads of all servers run.
use Prim.Native.Nat.{ℕ, zero, suc, ◌≤◌, ◌<◌, bit_xor}
use mathlib.Core.Path.{◌≡◌, refl, sym, ap, ap₂, ◌∙◌}
use mathlib.Core.List.{List, [], ◌∷◌, Perm, Permᴰ}
use mathlib.Core.Logic.{∥∥₁_elim}
use native.Mathlib.Nat.{ℕ_set}
use native.Mathlib.Omega.{arith}
use cip_pir.Base.Xor.{xor_assoc, xor_comm}
use cip_pir.Base.Sum.{xsum, xsum-zero, xsum-suc}

-- The numbers below `n`, the largest first.
unfoldable pub below : ℕ → List ℕ
below zero = []
below (suc n) = n ∷ below n

-- An order in which every one of `n` threads has its turn once.
abbrev pub IsOrder : ℕ → List ℕ → Type 0
IsOrder n order = Perm order (below n)

abbrev pub AllBelow : ℕ → List ℕ → Type 0
AllBelow n [] = Unit {0}
AllBelow n (x ∷ xs) = (x < n) × AllBelow n xs

pub xlist : (ℕ → ℕ) → List ℕ → ℕ
xlist f [] = 0
xlist f (x ∷ xs) = bit_xor (f x) (xlist f xs)

pub xlist-cons : (f : ℕ → ℕ) (x : ℕ) (xs : List ℕ) → xlist f (x ∷ xs) ≡ bit_xor (f x) (xlist f xs)
unfolding xlist
xlist-cons f x xs = refl

pub xlist-nil : (f : ℕ → ℕ) → xlist f [] ≡ 0
unfolding xlist
xlist-nil f = refl

pub xlist-ext :
    (n : ℕ) (f g : ℕ → ℕ) (l : List ℕ)
    → AllBelow n l
    → ((t : ℕ) → t < n → f t ≡ g t)
    → xlist f l ≡ xlist g l
unfolding xlist
xlist-ext n f g [] h e = refl
xlist-ext n f g (x ∷ l) (p, h) e = ap₂ bit_xor (e x p) (xlist-ext n f g l h e)

xlist-below : (f : ℕ → ℕ) (n : ℕ) → xlist f (below n) ≡ xsum n f
unfolding xlist below
xlist-below f zero = sym (xsum-zero f)
xlist-below f (suc n) =
    ap (bit_xor (f n)) (xlist-below f n) ∙ xor_comm (f n) (xsum n f) ∙ sym (xsum-suc n f)

AllBelow-below : (m n : ℕ) → n ≤ m → AllBelow m (below n)
unfolding below
AllBelow-below m zero h = tt
AllBelow-below m (suc n) h = (omega arith, AllBelow-below m n (omega arith))

AllBelow-perm : (n : ℕ) {l l' : List ℕ} → Permᴰ l l' → AllBelow n l' → AllBelow n l
AllBelow-perm n Permᴰ.nil h = tt
AllBelow-perm n (Permᴰ.cons e p) (q, h) = (rw e q, AllBelow-perm n p h)
AllBelow-perm n (Permᴰ.swap e e') (q, (r, h)) = (rw e r, (rw e' q, h))
AllBelow-perm n (Permᴰ.trans p q) h = AllBelow-perm n p (AllBelow-perm n q h)

xlist-permᴰ : (f : ℕ → ℕ) {l l' : List ℕ} → Permᴰ l l' → xlist f l ≡ xlist f l'
unfolding xlist
xlist-permᴰ f Permᴰ.nil = refl
xlist-permᴰ f (Permᴰ.cons e p) = ap₂ bit_xor (ap f e) (xlist-permᴰ f p)
xlist-permᴰ f (Permᴰ.swap {a} {b} {a'} {b'} {l} e e') =
    sym (xor_assoc (f a) (f b) (xlist f l))
    ∙ ap (λ t. bit_xor t (xlist f l)) (xor_comm (f a) (f b) ∙ ap₂ (λ x y. bit_xor (f x) (f y)) e' e)
    ∙ xor_assoc (f a') (f b') (xlist f l)
xlist-permᴰ f (Permᴰ.trans p q) = xlist-permᴰ f p ∙ xlist-permᴰ f q

module _ (n : ℕ) {l : List ℕ} (order : IsOrder n l) where
  -- Whatever the order, the sum is that over the numbers below `n`.
  pub xlist-order : (f : ℕ → ℕ) → xlist f l ≡ xsum n f
  xlist-order f = ∥∥₁_elim order (ℕ_set _ _) (λ d. xlist-permᴰ f d ∙ xlist-below f n)

  -- To prove an equation of numbers from an order, its members may be taken to be below `n`.
  pub order_members : {a b : ℕ} → (AllBelow n l → a ≡ b) → a ≡ b
  order_members k =
      ∥∥₁_elim order (ℕ_set _ _) λ d. k (AllBelow-perm n d (AllBelow-below n n (omega arith)))
