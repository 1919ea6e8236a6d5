-- ===== src/Seeds/Slots.antt =====
-- The offsets of the slots of the ring.
use cip_pir.Base.{◌≢◌}
use native.Mathlib.Nat.{mod-eq_of_lt}
use cip_pir.Config.{Config, seed_bytes}
use cip_pir.Base.Slots.{suc-times, slot_before, le_times}
use cip_pir.Seeds.{seed_size, next_slot}
use cip_pir.Base.{
  u32, ◌<◌, ◌^◌, ◌==◌, ==_iff, false, sym, ◌∙◌, ℕ_discrete, ap, ℕ, suc, ◌+◌, ◌-◌, ◌*◌, ◌≤◌, ◌<◌,
  ◌≡◌, ◌≢◌, arith, if◌then◌else◌, ltb,
}

-- A slot number after at most one round.
abbrev pub wrapped : ℕ → ℕ → ℕ
wrapped max h = if ltb h max then h else h - max

module _ (N h : ℕ) (inside : h < N) where
  pub wrapped-lt : (m : ℕ) → m ≤ N → wrapped N (h + m) < N
  wrapped-lt m l = ground arith

  pub wrapped_here : h ≡ wrapped N (h + 0)
  wrapped_here = ground arith

  pub wrapped-suc : (m : ℕ) → m < N → wrapped N (suc (wrapped N (h + m))) ≡ wrapped N (h + (m + 1))
  wrapped-suc m l = ground arith

  pub wrapped-head : (k : ℕ) → k < N → wrapped N (wrapped N (h + 1) + k) ≡ wrapped N (h + suc k)
  wrapped-head k l = ground arith

  pub wrapped-other : (k m : ℕ) → k < m → m < N → wrapped N (h + k) ≢ wrapped N (h + m)
  wrapped-other k m p l = ground arith

-- What the constructors take for granted of the sizes of the ring, in `uint32_t`.
pub record IsRing (c : Config) : Type 0 where
  pub some_slot : 1 ≤ c.number_seeds
  pub some_byte : 1 ≤ seed_bytes c + c.block_size
  pub small_ring : c.number_seeds * (seed_bytes c + c.block_size) < 2 ^ 32

==_false : (a b : ℕ) → a ≢ b → (a == b) ≡ false
==_false a b n = ground arith

abbrev pub tuple_size : Config → ℕ
tuple_size c = seed_bytes c + c.block_size

module _ (c : Config) (v : IsRing c) where
  pub seed_size_lem : seed_size c ≡ (tuple_size c)
  seed_size_lem =
      mod-eq_of_lt (omega (arith, v.small_ring, le_times c.number_seeds (tuple_size c) v.some_slot))
      ∙ omega arith

  ring_bytes : u32 (c.number_seeds * seed_size c) ≡ c.number_seeds * (tuple_size c)
  ring_bytes = ap (λ t. u32 (c.number_seeds * t)) seed_size_lem ∙ mod-eq_of_lt v.small_ring

  next_slot-end :
      (at : ℕ) → at + (tuple_size c) ≡ c.number_seeds * (tuple_size c) → next_slot c at ≡ 0
  next_slot-end at e =
      ap (λ b. if b then 0 else at + (tuple_size c)) ((==_iff _ _).1 (e ∙ sym ring_bytes))

  next_slot-inside :
      (at : ℕ)
      → at + (tuple_size c) < c.number_seeds * (tuple_size c)
      → next_slot c at ≡ at + (tuple_size c)
  next_slot-inside at l =
      ap (λ b. if b then 0 else at + (tuple_size c)) (==_false _ _ (omega (arith, ring_bytes)))

  wrapped-end : (N h : ℕ) → h ≡ N → wrapped N h ≡ 0
  wrapped-end N h e = ground arith

  pub wrapped-inside : (N h : ℕ) → h < N → wrapped N h ≡ h
  wrapped-inside N h l = ground arith

  pub next_slot-times :
      (h : ℕ)
      → h < c.number_seeds
      → next_slot c (h * (tuple_size c)) ≡ wrapped c.number_seeds (suc h) * (tuple_size c)
  next_slot-times h p = elim (ℕ_discrete (suc h) c.number_seeds) [
    | yes e ↦
        next_slot-end (h * (tuple_size c))
          (sym (suc-times h (tuple_size c)) ∙ ap (λ t. t * (tuple_size c)) e)
        ∙ omega (arith, ap (λ t. t * (tuple_size c)) (wrapped-end _ (suc h) e))
    | no n ↦
        next_slot-inside (h * (tuple_size c)) (
          omega (
            arith,
            suc-times h (tuple_size c),
            slot_before (suc h) c.number_seeds (tuple_size c) 0 (omega arith) v.some_byte,
          ))
        ∙ sym (
            ap (λ t. t * (tuple_size c)) (wrapped-inside _ (suc h) (omega arith))
            ∙ suc-times h (tuple_size c))
  ]
