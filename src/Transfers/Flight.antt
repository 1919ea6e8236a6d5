-- ===== src/Transfers/Flight.antt =====
-- The tuple that a thread of `transfer` has taken and that has not been written yet.
use cip_pir.Base.{
  ℕ, ◌<◌, ◌≡◌, ◌≢◌, ◌⊎◌, inl, inr, arith, refl, ap, sym, ◌∙◌, List, [], ◌∷◌, ℕ_discrete, dec_lt,
  ◌≤◌,
}
use mathlib.Core.List.{Mem, mem-cons_self}
use mathlib.Core.Path.{subst}
use cip_pir.Base.Memory.{Buffer}
use cip_pir.Config.{Config}
use cip_pir.Seeds.Slots.{tuple_size}
use cip_pir.Transfers.{Place, Transfer, Station, set_thread, move}

abbrev pub rank : Place → ℕ
rank Place.testing = 0
rank Place.waiting = 1
rank Place.passed = 2
rank Place.sending = 3
rank Place.ended = 4

module _ (c : Config) where
  -- Two threads that have not ended are the same.
  abbrev pub IsAlone : ℕ → (ℕ → Transfer) → Type 0
  IsAlone started threads =
      (i j : ℕ)
      → i < started
      → j < started
      → (threads i).place ≢ Place.ended
      → (threads j).place ≢ Place.ended
      → i ≡ j

  -- A thread whose buffer is still to be written stands before its loop's test or in the wait.
  abbrev pub IsKept : List ℕ → (ℕ → Transfer) → Type 0
  IsKept pending threads =
      (i : ℕ)
      → Mem i pending
      → ((threads i).place ≡ Place.testing) ⊎ ((threads i).place ≡ Place.waiting)

  pub record IsCareful (s : Station) : Type 0 where
    pub alone : IsAlone s.sender.started s.threads
    pub kept : IsKept s.pending s.threads

  abbrev pub IsSame : Buffer → Buffer → Type 0
  IsSame x y = (j : ℕ) → j < tuple_size c → x j ≡ y j

  -- Nothing is in flight; or a thread has the tuple `t` in its buffer and goes to send it; or it
  -- has handed it over.
  pub data Flight (t : Buffer) (started : ℕ) (threads : ℕ → Transfer) (pending : List ℕ)
      : Type 0 where
    nothing :
        pending ≡ []
        → ((i : ℕ) → i < started → (threads i).place ≢ Place.sending)
        → Flight t started threads pending
    held :
        (i : ℕ)
        → i < started
        → (threads i).place ≡ Place.sending
        → pending ≡ []
        → IsSame (threads i).seed t
        → Flight t started threads pending
    handed :
        (i : ℕ)
        → i < started
        → pending ≡ i ∷ []
        → IsSame (threads i).seed t
        → Flight t started threads pending

  abbrev pub flying :
      {t : Buffer} {started : ℕ} {threads : ℕ → Transfer} {pending : List ℕ}
      → Flight t started threads pending
      → ℕ
  flying (Flight.nothing e n) = 0
  flying (Flight.held i l p e s) = 1
  flying (Flight.handed i l e s) = 1

  pub set_same :
      (i j : ℕ) (t : Transfer) (threads : ℕ → Transfer) → i ≡ j → set_thread c i t threads j ≡ t
  set_same i j t threads e = ground arith

  pub set_other :
      (i j : ℕ) (t : Transfer) (threads : ℕ → Transfer)
      → i ≢ j
      → set_thread c i t threads j ≡ threads j
  set_other i j t threads n = ground arith

  -- A thread that is somewhere after a step of thread `i` was there before, or it is `i`.
  pub set-cases :
      (i j : ℕ) (t : Transfer) (threads : ℕ → Transfer) (p : Place)
      → (set_thread c i t threads j).place ≡ p
      → ((i ≡ j) × (t.place ≡ p)) ⊎ ((i ≢ j) × ((threads j).place ≡ p))
  set-cases i j t threads p e = elim (ℕ_discrete i j) [
    | yes z ↦ inl (z, ap (λ x. x.place) (sym (set_same i j t threads z)) ∙ e)
    | no n ↦ inr (n, ap (λ x. x.place) (sym (set_other i j t threads n)) ∙ e)
  ]

  pub move-seed :
      (i j : ℕ) (p : Place) (s : Station) → ((move c i p s).threads j).seed ≡ (s.threads j).seed
  unfolding move
  move-seed i j p s = elim (ℕ_discrete i j) [
    | yes z ↦ ap (λ x. x.seed) (set_same i j _ s.threads z) ∙ ap (λ x. (s.threads x).seed) z
    | no n ↦ ap (λ x. x.seed) (set_other i j _ s.threads n)
  ]

  -- A thread's move leaves what is in flight, if no tuple is taken or handed over by it.
  pub move-Flight :
      (t : Buffer) (i : ℕ) (p : Place) (s : Station)
      → i < s.sender.started
      → IsAlone s.sender.started s.threads
      → (s.threads i).place ≢ Place.ended
      → (s.threads i).place ≢ Place.sending
      → p ≢ Place.sending
      → (f : Flight t s.sender.started s.threads s.pending)
      → (g : Flight t s.sender.started (move c i p s).threads s.pending) × (flying g ≡ flying f)
  unfolding move
  move-Flight t i p s l alone live away goal (Flight.nothing e n) = (
    Flight.nothing e (λ j h q. elim (set-cases i j _ s.threads Place.sending q) [
      | inl (z, w) ↦ goal w
      | inr (d, w) ↦ n j h w
    ]),
    refl,
  )
  move-Flight t i p s l alone live away goal (Flight.held j h q e same) = absurd (
      away (
        ap (λ x. (s.threads x).place) (alone i j l h live (λ z. omega (arith, ap rank (sym q ∙ z))))
        ∙ q))
  move-Flight t i p s l alone live away goal (Flight.handed j h e same) =
      (Flight.handed j h e (λ x b. ap (λ y. y x) (move-seed i j p s) ∙ same x b), refl)

  -- The start of a further thread leaves it as well.
  pub switch-Flight :
      (t : Buffer) (threads : ℕ → Transfer) (pending : List ℕ) (m n : ℕ)
      → m ≤ n
      → ((i : ℕ) → m ≤ i → (threads i).place ≡ Place.testing)
      → (f : Flight t m threads pending) → (g : Flight t n threads pending) × (flying g ≡ flying f)
  switch-Flight t threads pending m n more to_come (Flight.nothing e none_sends) = (
    Flight.nothing e (λ i l p. elim (dec_lt i m) [
      | yes h ↦ none_sends i h p
      | no h ↦ omega (arith, ap rank (sym (to_come i (omega (arith, h))) ∙ p))
    ]),
    refl,
  )
  switch-Flight t threads pending m n more to_come (Flight.held i l p e same) =
      (Flight.held i (omega arith) p e same, refl)
  switch-Flight t threads pending m n more to_come (Flight.handed i l e same) =
      (Flight.handed i (omega arith) e same, refl)

  -- A thread whose buffer is to be written stands at no other place.
  pub kept-rank :
      (s : Station) → IsCareful s → (i : ℕ) → s.pending ≡ i ∷ [] → rank (s.threads i).place ≤ 1
  kept-rank s careful i e = elim (careful.kept i (subst (λ l. Mem i l) (sym e) mem-cons_self)) [
    | inl h ↦ omega (arith, ap rank h)
    | inr h ↦ omega (arith, ap rank h)
  ]

  -- Two threads that have not ended stand at the same place.
  pub one_place :
      (s : Station)
      → IsCareful s
      → (i j : ℕ) → i < s.sender.started
      → j < s.sender.started
      → rank (s.threads i).place ≤ 3
      → rank (s.threads j).place ≤ 3
      → (i ≡ j) × (rank (s.threads i).place ≡ rank (s.threads j).place)
  one_place s careful i j p q h l =
      let e =
        careful.alone i j p q (λ z. omega (arith, h, ap rank z))
          (λ z. omega (arith, l, ap rank z)) in
      (e, ap (λ x. rank (s.threads x).place) e)

  -- What is in flight, as another tuple of the same bytes.
  pub later_Flight :
      (t t' : Buffer) (started : ℕ) (threads : ℕ → Transfer) (pending : List ℕ)
      → (f : Flight t started threads pending) → (flying f ≡ 1 → IsSame t t')
      → (g : Flight t' started threads pending) × (flying g ≡ flying f)
  later_Flight t t' started threads pending (Flight.nothing e n) same = (Flight.nothing e n, refl)
  later_Flight t t' started threads pending (Flight.held i l p e s) same =
      (Flight.held i l p e (λ x b. s x b ∙ same refl x b), refl)
  later_Flight t t' started threads pending (Flight.handed i l e s) same =
      (Flight.handed i l e (λ x b. s x b ∙ same refl x b), refl)

  pub flying_le :
      {t : Buffer} {started : ℕ} {threads : ℕ → Transfer} {pending : List ℕ}
      (f : Flight t started threads pending)
      → flying f ≤ 1
  flying_le (Flight.nothing e n) = omega arith
  flying_le (Flight.held i l p e s) = omega arith
  flying_le (Flight.handed i l e s) = omega arith
