-- ===== src/Walk/Laws.antt =====
-- The walks as differences of the numbers of groups before a chunk.
use native.Mathlib.Nat.{mod-eq_of_lt, mod-eq-sub-mod}
use cip_pir.Base.{ℕ, zero, suc, ◌+◌, ◌-◌, ◌*◌, ◌%◌, ◌≤◌, min, ◌≡◌, refl, ap, ap₂, ◌∙◌}
use cip_pir.Base.{List, arith, at, length, dec_lt, ◌⊎◌, inl, inr}
use cip_pir.Base.Sum.{sum, sum-zero, sum-suc, sum-add}
use cip_pir.Walk.{walk_right, walk_left, walk_back, walk_round}

module _ (m : List ℕ) where
  -- The groups before chunk `i`.
  abbrev pub before : ℕ → ℕ
  before i = sum i (at m)

  pub before-suc : (i : ℕ) → before (i + 1) ≡ before i + at m i
  before-suc i = ap before (omega arith) ∙ sum-suc i (at m)

  pub before_mono : (i j : ℕ) → i ≤ j → before i ≤ before j
  before_mono i j h = omega (arith, sum-add i (j - i) (at m), ap before all)
    where
      all : i + (j - i) ≡ j
      all = omega arith

-- A wrap that leaves the numbers up to `limit` alone.
abbrev pub Exact : (ℕ → ℕ) → ℕ → Type 0
Exact wrap limit = (x : ℕ) → x ≤ limit → wrap x ≡ x

module _ (wrap : ℕ → ℕ) (m : List ℕ) (limit : ℕ) (exact : Exact wrap limit) where
  pub walk_left_lem :
      (left j acc : ℕ)
      → acc + before m (j + left) ≤ limit + before m j
      → walk_left wrap m left j acc + before m j ≡ acc + before m (j + left)
  unfolding walk_left
  walk_left_lem zero j acc h = ap (λ k. acc + before m k) (omega arith)
  walk_left_lem (suc left) j acc h =
      let step = before-suc m j in
      let end : before m (j + 1 + left) ≡ before m (j + suc left) = ap (before m) (omega arith) in
      let grows = before_mono m (j + 1) (j + 1 + left) (omega arith) in
      let here = exact (acc + at m j) (omega arith) in
      let fits : acc + at m j + before m (j + 1 + left) ≤ limit + before m (j + 1) = omega arith in
      rw here (omega (arith, walk_left_lem left (j + 1) (acc + at m j) fits))

  pub walk_right_lem :
      (end left j acc : ℕ)
      → acc + before m (j + min left (end - j)) ≤ limit + before m j
      → ((walk_right wrap m end left j acc).0 + before m j
          ≡ acc + before m (j + min left (end - j)))
        × ((walk_right wrap m end left j acc).1 ≡ left - min left (end - j))
  unfolding walk_right
  walk_right_lem end zero j acc h = (ap (λ k. acc + before m k) (omega arith), omega arith)
  walk_right_lem end (suc left) j acc h = elim (dec_lt j end) [
    | yes inside ↦
        let step = before-suc m j in
        let same : j + 1 + min left (end - (j + 1)) ≡ j + min (suc left) (end - j) = omega arith in
        let e = ap (before m) same in
        let grows = before_mono m (j + 1) (j + 1 + min left (end - (j + 1))) (omega arith) in
        let here = exact (acc + at m j) (omega arith) in
        let rest = walk_right_lem end left (j + 1) (acc + at m j) (omega arith) in
        ground (arith, here, rest)
    | no outside ↦
        let stop : j + min (suc left) (end - j) ≡ j = omega arith in
        ground (arith, ap (before m) stop)
  ]

  pub walk_back_lem :
      (id left i acc : ℕ)
      → i + left ≤ id
      → acc + before m (id - i) ≤ limit + before m (id - i - left)
      → walk_back wrap m id left i acc + before m (id - i - left) ≡ acc + before m (id - i)
  unfolding walk_back
  walk_back_lem id zero i acc p h = ap (λ k. acc + before m k) (omega arith)
  walk_back_lem id (suc left) i acc p h =
      let step = before-suc m (id - 1 - i) in
      let top : before m (id - 1 - i + 1) ≡ before m (id - i) = ap (before m) (omega arith) in
      let mid : before m (id - (i + 1)) ≡ before m (id - 1 - i) = ap (before m) (omega arith) in
      let low : before m (id - (i + 1) - left) ≡ before m (id - i - suc left) =
        ap (before m) (omega arith) in
      let grows = before_mono m (id - i - suc left) (id - 1 - i) (omega arith) in
      let here = exact (acc + at m (id - 1 - i)) (omega arith) in
      rw here (
        omega (
          arith,
          walk_back_lem id left (i + 1) (acc + at m (id - 1 - i)) (omega arith) (omega arith),
        ))

  -- Rounds that stay below the end of the map.
  pub walk_round_inside :
      (id left i acc : ℕ)
      → id + i + left ≤ length m
      → walk_round wrap m id left i acc ≡ walk_left wrap m left (id + i) acc
  unfolding walk_round walk_left
  walk_round_inside id zero i acc h = refl
  walk_round_inside id (suc left) i acc h =
      rw (mod-eq_of_lt {n = id + i} {m = length m} (omega arith)) (
        walk_round_inside id left (i + 1) (wrap (acc + at m (id + i))) (omega arith)
        ∙ ap (λ k. walk_left wrap m left k (wrap (acc + at m (id + i)))) (omega arith))

  -- Rounds past the end of the map go on from chunk 0.
  pub walk_round_outside :
      (id left i acc : ℕ)
      → length m ≤ id + i
      → id + i + left ≤ 2 * length m
      → walk_round wrap m id left i acc ≡ walk_left wrap m left (id + i - length m) acc
  unfolding walk_round walk_left
  walk_round_outside id zero i acc h k = refl
  walk_round_outside id (suc left) i acc h k =
      let round : (id + i) % length m ≡ id + i - length m =
        mod-eq-sub-mod {n = id + i} {m = length m} (omega arith)
        ∙ mod-eq_of_lt {n = id + i - length m} {m = length m} (omega arith) in
      rw round (
        walk_round_outside id left (i + 1) _ (omega arith) (omega arith)
        ∙ ap (λ k. walk_left wrap m left k (wrap (acc + at m (id + i - length m)))) (omega arith))

pub walk_round-add :
    (wrap : ℕ → ℕ) (m : List ℕ) (id a b i acc : ℕ)
    → walk_round wrap m id (a + b) i acc
      ≡ walk_round wrap m id b (i + a) (walk_round wrap m id a i acc)
unfolding walk_round
walk_round-add wrap m id zero b i acc =
    let count : 0 + b ≡ b = omega arith in
    let from : i ≡ i + 0 = omega arith in ap₂ (λ n k. walk_round wrap m id n k acc) count from
walk_round-add wrap m id (suc a) b i acc =
    let n : suc a + b ≡ suc (a + b) = omega arith in
    ap (λ t. walk_round wrap m id t i acc) n
    ∙ walk_round-add wrap m id a b (i + 1) _
    ∙ ap (λ k. walk_round wrap m id b k (walk_round wrap m id (suc a) i acc)) (omega arith)

module _ (wrap : ℕ → ℕ) (m : List ℕ) (limit : ℕ) (exact : Exact wrap limit) where
  past_end :
      (id b i acc : ℕ)
      → (b ≡ 0) ⊎ (id + i ≡ length m)
      → b ≤ length m
      → acc + before m b ≤ limit
      → walk_round wrap m id b i acc ≡ acc + before m b
  past_end id b i acc (inl e) h k = rw e (unfold walk_round in omega (arith, sum-zero (at m)))
  past_end id b i acc (inr e) h k =
      let from : id + i - length m ≡ 0 = omega arith in
      let to = ap (before m) (zero_add b) in
      walk_round_outside wrap m limit exact id b i acc (omega arith) (omega arith)
      ∙ ap (λ j. walk_left wrap m b j acc) from
      ∙ omega (
        arith,
        sum-zero (at m),
        walk_left_lem wrap m limit exact b 0 acc (omega (arith, sum-zero (at m))),
      )
    where
      zero_add : (n : ℕ) → 0 + n ≡ n
      zero_add n = omega arith

  -- A round walk: `a` chunks up to the end of the map, and then `b` chunks from its start.
  pub walk_round_lem :
      (id a b i : ℕ)
      → id + i + a ≤ length m
      → (b ≡ 0) ⊎ (id + i + a ≡ length m)
      → b ≤ length m
      → before m (id + i + a) + before m b ≤ limit + before m (id + i)
      → walk_round wrap m id (a + b) i 0 + before m (id + i) ≡ before m (id + i + a) + before m b
  walk_round_lem id a b i h stop fits small =
      let first = walk_left_lem wrap m limit exact a (id + i) 0 (omega arith) in
      let there = walk_round_inside wrap m limit exact id a i 0 h in
      let second =
        past_end id b (i + a) (walk_left wrap m a (id + i) 0) (ground arith) fits (omega arith) in
      omega (
        arith,
        walk_round-add wrap m id a b i 0,
        ap (walk_round wrap m id b (i + a)) there,
        second,
        first,
      )
