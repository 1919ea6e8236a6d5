-- ===== src/Kernels/Threads/Split.antt =====
-- `completexor` computes what `fastxor` computes on a block of zeros.
use mathlib.Core.Path.{subst}
use native.Mathlib.Nat.{mod-lt, mod-add-div'}
use cip_pir.Base.{
  ℕ, zero, suc, ◌+◌, ◌-◌, ◌*◌, ◌/◌, ◌%◌, ◌≤◌, ◌<◌, ◌≡◌, inr, arith, refl, ap, ap₂, sym, ◌∙◌,
  bit_xor, if◌then◌else◌, ltb, dec_lt, lt→ltb, le→not_ltb,
}
use cip_pir.Base.Memory.{
  Buffer, advance, zeros, through, through-here, through-before, copy-inside, copy-outside,
}
use cip_pir.Base.Slots.{slot_before, slot_end}
use cip_pir.Base.Xor.{zero-bit_xor}
use cip_pir.Base.Sum.{xsum, xsum-ext, xsum-add, xsum-suc, xsum-zero, xsum_zeros}
use cip_pir.Config.{Config, pre_offset}
use cip_pir.Kernels.{fastxor}
use cip_pir.Kernels.Groups.{entry, fastxor_lem, fastxor-outside}
use cip_pir.Kernels.Threads.{run_threads, completexor, combine_dest}
use cip_pir.Kernels.Threads.Combine.{combine_dest-here}

-- The groups that thread `i` gets.
abbrev share : ℕ → ℕ → ℕ → ℕ
share per_thread remaining i = per_thread + (if ltb i remaining then 1 else 0)

-- `currentGroup` after `left` more threads.
reached : ℕ → ℕ → ℕ → ℕ → ℕ → ℕ
reached zero i per_thread remaining current = current
reached (suc left) i per_thread remaining current =
    reached left (i + 1) per_thread remaining (current + share per_thread remaining i)

reached_lem :
    (left i per_thread remaining current : ℕ)
    → current ≡ i * per_thread + (if ltb i remaining then i else remaining)
    → remaining ≤ i + left
    → reached left i per_thread remaining current ≡ (i + left) * per_thread + remaining
unfolding reached
reached_lem zero i per_thread remaining current e h = grind arith
reached_lem (suc left) i per_thread remaining current e h =
    reached_lem left (i + 1) per_thread remaining _ (grind arith) (omega arith)
    ∙ ap (λ t. t * per_thread + remaining) (omega arith)

module _ (c : Config) (src query : Buffer) where
  abbrev B : ℕ
  B = c.block_size

  -- What group `g` adds to byte `j`.
  abbrev term : ℕ → ℕ → ℕ
  term j g = entry c src g (query g) j

  abbrev own : ℕ → ℕ → Buffer → Buffer
  own current total dest =
      fastxor c dest (advance src (current * pre_offset c)) (advance query current) total

  own_lem :
      (current total : ℕ) (dest : Buffer) (j : ℕ)
      → j < B
      → dest j ≡ 0
      → own current total dest j ≡ xsum total (λ t. term j (current + t))
  own_lem current total dest j h e =
      fastxor_lem c dest (advance src (current * pre_offset c)) (advance query current) total j h
      ∙ ap₂ bit_xor e (xsum-ext total _ _ (λ t p. ap src (omega arith)))
      ∙ zero-bit_xor _

  -- The blocks before thread `i` add up to the groups before `current`, and the others are zero.
  record IsSplit (i current : ℕ) (results : Buffer) : Type 0 where
    so_far : (j : ℕ) → j < B → xsum i (λ t. results (t * B + j)) ≡ xsum current (term j)
    clear : (t j : ℕ) → i ≤ t → j < B → results (t * B + j) ≡ 0

  IsSplit-thread :
      (i current total : ℕ) (results : Buffer)
      → IsSplit i current results
      → IsSplit (i + 1) (current + total) (through results (i * B) (own current total))
  IsSplit-thread i current total results s = record {
    so_far = λ j h.
        ap (λ t. xsum t (λ t. through results (i * B) (own current total) (t * B + j)))
          (omega arith)
        ∙ xsum-suc i _
        ∙ ap₂ bit_xor
            (xsum-ext i _ _ (λ t p.
                through-before results (i * B) (t * B + j) (own current total)
                  (slot_before t i B j p h))
              ∙ s.so_far j h)
            (through-here results (i * B) j (own current total)
              ∙ own_lem current total (advance results (i * B)) j h (s.clear i j (omega arith) h))
        ∙ sym (xsum-add current total (term j));
    clear = λ t j a h.
        let o = t * B + j in
        let behind : i * B + B ≤ o = omega (arith, slot_end i t B (omega arith)) in
        let back : i * B + (o - i * B) ≡ o = omega arith in
        ap (through results (i * B) (own current total)) (sym back)
        ∙ through-here results (i * B) (o - i * B) (own current total)
        ∙ fastxor-outside c (advance results (i * B)) (advance src (current * pre_offset c))
            (advance query current) total (o - i * B) (omega arith)
        ∙ ap results back
        ∙ s.clear t j (omega arith) h;
  }

  run_threads-IsSplit :
      (left i per_thread remaining current : ℕ) (results : Buffer)
      → IsSplit i current results
      → IsSplit
          (i + left)
          (reached left i per_thread remaining current)
          (run_threads c left i per_thread remaining current src query results)
  unfolding run_threads reached
  run_threads-IsSplit zero i per_thread remaining current results s =
      subst (λ t. IsSplit t current results) (omega arith) s
  run_threads-IsSplit (suc left) i per_thread remaining current results s =
      subst
        (λ t.
          IsSplit t
            (reached left (i + 1) per_thread remaining (current + share per_thread remaining i))
            (run_threads c left (i + 1) per_thread remaining
              (current + share per_thread remaining i) src query
              (through results (i * B) (own current (share per_thread remaining i)))))
        (omega arith)
        (run_threads-IsSplit left (i + 1) per_thread remaining _ _
          (IsSplit-thread i current (share per_thread remaining i) results s))

  -- With at least one thread, `completexor` puts into the block what `fastxor` adds to a block of
  -- zeros, and leaves the bytes behind the block alone.
  pub completexor-fastxor :
      (threads groups j : ℕ) (dest : Buffer)
      → 1 ≤ threads
      → completexor c threads dest src query groups j
        ≡ (if ltb j B then fastxor c zeros src query groups j else dest j)
  unfolding completexor
  completexor-fastxor threads groups j dest h = elim (dec_lt j B) [
    | yes p ↦
        copy-inside dest (combine_dest c threads 0 threads results) 0 B j j (omega arith) p
        ∙ ap (combine_dest c threads 0 threads results) (omega arith)
        ∙ combine_dest-here c threads 0 threads results j h (omega arith) p
        ∙ xsum-ext threads _ _ (λ t q. ap results (omega arith))
        ∙ ap (λ t. xsum t (λ t. results (t * B + j))) (omega arith)
        ∙ split.so_far j p
        ∙ ap (λ t. xsum t (term j)) all_groups
        ∙ sym (zero-bit_xor _)
        ∙ sym (fastxor_lem c zeros src query groups j p)
        ∙ sym (ap (λ b. if b then fastxor c zeros src query groups j else dest j) (lt→ltb j B p))
    | no p ↦
        copy-outside dest (combine_dest c threads 0 threads results) 0 B j (inr (omega arith))
        ∙ sym (
            ap (λ b. if b then fastxor c zeros src query groups j else dest j)
              (le→not_ltb j B (omega arith)))
  ]
    where
      results : Buffer
      results = run_threads c threads 0 (groups / threads) (groups % threads) 0 src query zeros

      split :
          IsSplit (0 + threads) (reached threads 0 (groups / threads) (groups % threads) 0) results
      split = run_threads-IsSplit threads 0 (groups / threads) (groups % threads) 0 zeros (record {
        so_far = λ j h. xsum_zeros 0 _ (λ t q. refl) ∙ sym (xsum-zero (term j));
        clear = λ t j a h. refl;
      })

      rest_lt : groups % threads < threads
      rest_lt = mod-lt groups h

      all_groups : reached threads 0 (groups / threads) (groups % threads) 0 ≡ groups
      all_groups =
          reached_lem threads 0 (groups / threads) (groups % threads) 0 (ground arith)
            (omega (arith, rest_lt))
          ∙ omega (arith, mod-add-div' groups threads)
