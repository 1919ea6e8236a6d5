-- ===== src/Lookup/Search.antt =====
-- The search of the manifest in `checkHash`.

use native.Mathlib.Nat.{mod-eq_of_lt}
use cip_pir.Base.{
  ℕ, zero, suc, ◌+◌, ◌^◌, ◌≤◌, ◌<◌, ◌≡◌, ◌≢◌, inl, inr, arith, ap, sym, ◌∙◌, Bool, true, false,
  Option, some, u32, Bool-cases, ℕ_discrete, dec_le,
}
use cip_pir.Base.Memory.{Buffer}
use cip_pir.Config.{Config}
use cip_pir.Entries.{is_greater}
use cip_pir.Lookup.{find_from, against_manifest}

pub true-false : true ≢ false
true-false e = ground arith

some-inj : {x y : ℕ} → some x ≡ some y → x ≡ y
some-inj e = ground arith

module _ (c : Config) (point : Buffer) where
  module _ (manifest : Buffer) where
    abbrev pub above : ℕ → Bool
    above index = is_greater (against_manifest c point manifest index)

    -- `index` is the first from `start` on whose entry is not below the point.
    pub record IsFirst (start index : ℕ) : Type 0 where
      pub from_start : start ≤ index
      pub stops : above index ≡ false
      pub goes_on : (i : ℕ) → start ≤ i → i < index → above i ≡ true

    find_from-here :
        (fuel index : ℕ)
        → above index ≡ false
        → find_from c (suc fuel) point manifest index ≡ some index
    unfolding find_from
    find_from-here fuel index h =
        ap
          (λ b. elim b as (λ z. Option ℕ) [
            | true ↦ find_from c fuel point manifest (u32 (index + 1))
            | false ↦ some index
          ])
          h

    find_from-next :
        (fuel index : ℕ)
        → above index ≡ true
        → find_from c (suc fuel) point manifest index
          ≡ find_from c fuel point manifest (u32 (index + 1))
    unfolding find_from
    find_from-next fuel index h =
        ap
          (λ b. elim b as (λ z. Option ℕ) [
            | true ↦ find_from c fuel point manifest (u32 (index + 1))
            | false ↦ some index
          ])
          h

    find_from-goes :
        (fuel start limit : ℕ)
        → start ≤ limit
        → limit < start + fuel
        → limit < 2 ^ 32
        → above limit ≡ false
        → (index : ℕ) × (find_from c fuel point manifest start ≡ some index)
          × (index ≤ limit)
          × IsFirst start index
    find_from-goes zero start limit p q w h = absurd (omega arith)
    find_from-goes (suc fuel) start limit p q w h = elim (Bool-cases (above start)) [
      | inl e ↦
          let apart : start ≢ limit = λ z. true-false (sym e ∙ ap above z ∙ h) in
          let next : u32 (start + 1) ≡ start + 1 = mod-eq_of_lt (omega (arith, apart)) in
          let (index, found, l, first) =
            find_from-goes fuel (start + 1) limit (omega (arith, apart)) (omega arith) w h in
          (
            index,
            find_from-next fuel start e ∙ ap (find_from c fuel point manifest) next ∙ found,
            l,
            record {
              from_start = omega (arith, first.from_start);
              stops = first.stops;
              goes_on = λ i a b. elim (ℕ_discrete start i) [
                | yes z ↦ ap above (sym z) ∙ e
                | no n ↦ first.goes_on i (omega (arith, n)) b
              ];
            },
          )
      | inr e ↦ (
        start,
        find_from-here fuel start e,
        p,
        record { from_start = omega arith; stops = e; goes_on = λ i a b. absurd (omega arith) },
      )
    ]

    -- If some entry, of an index below the fuel and `2 ^ 32`, is not below the point, the search
    -- ends at the first such entry.
    pub find_from-IsFirst :
        (fuel limit : ℕ)
        → limit < fuel
        → limit < 2 ^ 32
        → above limit ≡ false
        → (index : ℕ) × (find_from c fuel point manifest 0 ≡ some index)
          × (index ≤ limit)
          × IsFirst 0 index
    find_from-IsFirst fuel limit q w h = find_from-goes fuel 0 limit (omega arith) (omega arith) w h

    find_from-stops :
        (fuel start index : ℕ)
        → find_from c fuel point manifest start ≡ some index
        → above index ≡ false
    unfolding find_from
    find_from-stops zero start index e = ground arith
    find_from-stops (suc fuel) start index e = elim (Bool-cases (above start)) [
      | inl h ↦ find_from-stops fuel (u32 (start + 1)) index (sym (find_from-next fuel start h) ∙ e)
      | inr h ↦ ap above (sym (some-inj (sym (find_from-here fuel start h) ∙ e))) ∙ h
    ]

    -- If the point is above the first `count` entries, the search reads all of them and goes on
    -- behind them: it ends at no index below `count`.
    pub find_from-behind :
        (fuel count index : ℕ)
        → ((i : ℕ) → i < count → above i ≡ true)
        → find_from c fuel point manifest 0 ≡ some index
        → count ≤ index
    find_from-behind fuel count index h e = elim (dec_le count index) [
      | yes l ↦ l
      | no n ↦
          absurd (true-false (sym (h index (omega (arith, n))) ∙ find_from-stops fuel 0 index e))
    ]
