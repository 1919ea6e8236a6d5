-- ===== src/Lookup/Scan.antt =====
-- The search of the block in `checkHash`.
use Prim.Native.Nat.{Ordering}
use cip_pir.Base.{
  ℕ, zero, suc, ◌+◌, ◌≤◌, ◌<◌, ◌≡◌, ◌≢◌, ◌⊎◌, inl, inr, arith, refl, ap, sym, ◌∙◌, Bool, true,
  false, ℕ_discrete, ◌↔◌,
}
use cip_pir.Base.Memory.{Buffer}
use cip_pir.Config.{Config}
use cip_pir.Lookup.{scan_from, against_entry}
use cip_pir.Lookup.Search.{true-false}

eq-gt : Ordering.eq ≢ Ordering.gt
eq-gt e = ground arith

eq-lt : Ordering.eq ≢ Ordering.lt
eq-lt e = ground arith

gt-lt : Ordering.gt ≢ Ordering.lt
gt-lt e = ground arith

ordering-cases : (o : Ordering) → (o ≡ Ordering.eq) ⊎ (o ≡ Ordering.lt) ⊎ (o ≡ Ordering.gt)
ordering-cases Ordering.eq = inl refl
ordering-cases Ordering.lt = inr (inl refl)
ordering-cases Ordering.gt = inr (inr refl)

module _ (c : Config) (point : Buffer) where
  module _ (block : Buffer) where
    -- Entry `i` is the point, and all from `start` up to it are below the point.
    pub record IsMember (start i : ℕ) : Type 0 where
      pub equal : against_entry c point block i ≡ Ordering.eq
      pub below : (j : ℕ) → start ≤ j → j < i → against_entry c point block j ≡ Ordering.gt

    scan_from-as :
        (left i : ℕ) (o : Ordering)
        → against_entry c point block i ≡ o
        → scan_from c (suc left) point block i ≡ (elim o as (λ z. Bool) [
          | Ordering.eq ↦ true
          | Ordering.lt ↦ false
          | Ordering.gt ↦ scan_from c left point block (i + 1)
        ])
    unfolding scan_from
    scan_from-as left i o h =
        ap
          (λ z. elim z as (λ y. Bool) [
            | Ordering.eq ↦ true
            | Ordering.lt ↦ false
            | Ordering.gt ↦ scan_from c left point block (i + 1)
          ])
          h

    Member : ℕ → ℕ → Type 0
    Member left i = (j : ℕ) × (i ≤ j) × (j < i + left) × IsMember i j

    Member-later :
        (left i : ℕ)
        → against_entry c point block i ≡ Ordering.gt
        → Member left (i + 1)
        → Member (suc left) i
    unfolding Member
    Member-later left i h (j, p, q, m) = (
      j,
      omega arith,
      omega arith,
      record {
        equal = m.equal;
        below = λ t a b. elim (ℕ_discrete i t) [
          | yes z ↦ ap (against_entry c point block) (sym z) ∙ h
          | no n ↦ m.below t (omega (arith, n)) b
        ];
      },
    )

    Member-earlier :
        (left i : ℕ)
        → against_entry c point block i ≡ Ordering.gt
        → Member (suc left) i
        → Member left (i + 1)
    unfolding Member
    Member-earlier left i h (j, p, q, m) =
        let apart : i ≢ j =
          λ z. eq-gt (sym m.equal ∙ ap (against_entry c point block) (sym z) ∙ h) in
        (
          j,
          omega (arith, apart),
          omega arith,
          record { equal = m.equal; below = λ t a b. m.below t (omega arith) b },
        )

    no-Member : (left i : ℕ) → against_entry c point block i ≡ Ordering.lt → ¬ Member left i
    unfolding Member
    no-Member left i h (j, p, q, m) = elim (ℕ_discrete i j) [
      | yes z ↦ eq-lt (sym m.equal ∙ ap (against_entry c point block) (sym z) ∙ h)
      | no n ↦ gt-lt (sym (m.below i (omega arith) (omega (arith, n))) ∙ h)
    ]

    -- The scan of `left` entries from `i` on finds the point exactly if one of them is the point
    -- and all before that one are below it.
    pub scan_from_iff :
        (left i : ℕ)
        → (scan_from c left point block i ≡ true)
          ↔ ((j : ℕ) × (i ≤ j) × (j < i + left) × IsMember i j)
    unfolding scan_from Member
    scan_from_iff zero i = (λ e. absurd (true-false (sym e)), λ m. absurd (omega (arith, m.1, m.2)))
    scan_from_iff (suc left) i =
        let e = scan_from-as left i in
        elim (ordering-cases (against_entry c point block i)) [
          | inl h ↦ (
            λ z. (
              i,
              omega arith,
              omega arith,
              record { equal = h; below = λ j a b. absurd (omega arith) },
            ),
            λ m. e Ordering.eq h,
          )
          | inr (inl h) ↦ (
            λ z. absurd (true-false (sym z ∙ e Ordering.lt h)),
            λ m. absurd (no-Member (suc left) i h m),
          )
          | inr (inr h) ↦ (
            λ z. Member-later left i h ((scan_from_iff left (i + 1)).0 (sym (e Ordering.gt h) ∙ z)),
            λ m. e Ordering.gt h ∙ (scan_from_iff left (i + 1)).1 (Member-earlier left i h m),
          )
        ]

    -- It finds an entry that is the point if no entry before is above the point.
    pub scan_from-finds :
        (left i j : ℕ)
        → i ≤ j
        → j < i + left
        → against_entry c point block j ≡ Ordering.eq
        → ((t : ℕ) → i ≤ t → t < j → against_entry c point block t ≢ Ordering.lt)
        → scan_from c left point block i ≡ true
    scan_from-finds zero i j p q h none_above = absurd (omega arith)
    scan_from-finds (suc left) i j p q h none_above = elim (ℕ_discrete i j) [
      | yes z ↦ scan_from-as left i Ordering.eq (ap (against_entry c point block) z ∙ h)
      | no n ↦ elim (ordering-cases (against_entry c point block i)) [
        | inl e ↦ scan_from-as left i Ordering.eq e
        | inr (inl e) ↦ absurd (none_above i (omega arith) (omega (arith, n)) e)
        | inr (inr e) ↦
            scan_from-as left i Ordering.gt e
            ∙ scan_from-finds left (i + 1) j (omega (arith, n)) (omega arith) h
                (λ t a b. none_above t (omega arith) b)
      ]
    ]

    pub scan_from-found :
        (left i : ℕ)
        → scan_from c left point block i ≡ true
        → (j : ℕ) × (j < i + left) × (against_entry c point block j ≡ Ordering.eq)
    scan_from-found left i e = let (j, p, q, m) = (scan_from_iff left i).0 e in (j, q, m.equal)
