-- ===== src/Control/Starts.antt =====
-- When `setActive` starts a thread, and when it goes wrong.
use cip_pir.Base.{
  zero, suc, ℕ, ◌+◌, ◌≤◌, ◌≡◌, ◌⊎◌, inl, inr, arith, refl, none, some, Bool, true, false, ◌==◌,
  if◌then◌else◌, Option, not, ◌&&◌, ap,
}
use cip_pir.Control.{Sender, set_active}

-- A worker of which a thread has been started if it is active.
unfoldable pub IsSender : Sender → Type 0
IsSender s = s.active ≡ true → 1 ≤ s.started

started_before : (s : Sender) (n : ℕ) → 1 ≤ n → (if n == 0 then none else some s) ≡ some s
started_before s n h = ground arith

Outcome : Bool → Sender → Type 0
unfolding IsSender
Outcome val s =
    ((val ≡ false) × (s.started ≡ 0) × (set_active val s ≡ none))
    ⊎ ((t : Sender) × (set_active val s ≡ some t)
        × (t.active ≡ val)
        × (((val ≡ true) × (s.active ≡ false) × (t.started ≡ s.started + 1))
            ⊎ (((val ≡ false) ⊎ (s.active ≡ true)) × (t.started ≡ s.started)))
        × IsSender t)

set_active-Outcome :
    (val a : Bool) (n : ℕ) → (a ≡ true → 1 ≤ n) → Outcome val (record { active = a; started = n })
unfolding Outcome set_active IsSender
set_active-Outcome true false n i = inr (
  record { active = true; started = n + 1 },
  refl,
  refl,
  inl (refl, refl, refl),
  λ e. omega arith,
)
set_active-Outcome true true n i = inr (
  record { active = true; started = n },
  started_before _ n (i refl),
  refl,
  inr (inr refl, refl),
  λ e. i refl,
)
set_active-Outcome false a zero i = inl (refl, refl, refl)
set_active-Outcome false a (suc n) i = inr (
  record { active = false; started = suc n },
  started_before _ (suc n) (omega arith),
  refl,
  inr (inl refl, refl),
  λ e. omega arith,
)

-- `setActive` goes wrong exactly if it is to stop a worker that has started no thread; otherwise
-- the flag has the new value, and a thread is started exactly if a worker that was not active is to
-- start.
pub set_active_cases :
    (val : Bool) (s : Sender)
    → IsSender s
    → ((val ≡ false) × (s.started ≡ 0) × (set_active val s ≡ none))
      ⊎ ((t : Sender) × (set_active val s ≡ some t)
          × (t.active ≡ val)
          × (((val ≡ true) × (s.active ≡ false) × (t.started ≡ s.started + 1))
              ⊎ (((val ≡ false) ⊎ (s.active ≡ true)) × (t.started ≡ s.started)))
          × IsSender t)
unfolding set_active IsSender Outcome
set_active_cases val s i = set_active-Outcome val s.active s.started i

-- It never takes back a start.
pub set_active-started :
    (val : Bool) (s t : Sender) → set_active val s ≡ some t → s.started ≤ t.started
unfolding set_active
set_active-started val s t e = no_fewer val s.active s.started (ap started_of e)
  where
    started_of : Option Sender → ℕ
    started_of none = s.started
    started_of (some u) = u.started

    no_fewer :
        (val a : Bool) (n : ℕ)
        → started_of (
            if val && not a
            then some (record { active = val; started = n + 1 })
            else if n == 0
            then none
            else some (record { active = val; started = n }))
          ≡ t.started
        → n ≤ t.started
    no_fewer true false n h = ground arith
    no_fewer true true n h = ground arith
    no_fewer false a n h = ground arith
