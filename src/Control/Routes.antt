-- ===== src/Control/Routes.antt =====
-- Which messages reach which worker.
use cip_pir.Base.{
  ℕ, zero, suc, ◌≡◌, ◌≢◌, arith, refl, ap, sym, ◌∙◌, List, [], ◌∷◌, Option, none, some, Bool, true,
  false, not, ◌==◌, if◌then◌else◌, ℕ_discrete,
}
use cip_pir.Control.{
  Sender, Center, Completion, set_active, change_at, worker_index, read_handler, read_messages,
  ◌>>=◌,
}

-- The worker of an index.
unfoldable pub sender_at : ℕ → List Sender → Option Sender
sender_at i [] = none
sender_at zero (s ∷ l) = some s
sender_at (suc i) (s ∷ l) = sender_at i l

-- The values that the messages up to the first error have for worker `i`: those with its id, or all
-- of them for the one worker of a center server that is not centralized.
pub values_for : Bool → ℕ → List Completion → List Bool
values_for centralized i [] = []
values_for centralized i (Completion.failed ∷ ms) = []
values_for centralized i (Completion.message id state ∷ ms) =
    let rest = values_for centralized i ms in
    if (if centralized then id else 0) == i then not (state == 0) ∷ rest else rest

-- One `setActive` after the other.
pub set_all : List Bool → Sender → Option Sender
set_all [] s = some s
set_all (val ∷ l) s = do t ← set_active val s; set_all l t

bind-some :
    {A B : Type 0} (o : Option A) (f : A → Option B) (z : B)
    → (o >>= f) ≡ some z
    → (y : A) × (o ≡ some y) × (f y ≡ some z)
bind-some none f z e = ground arith
bind-some (some y) f z e = (y, refl, e)

pub some-same : {A : Type 0} {x y : A} → some x ≡ some y → x ≡ y
some-same e = ground arith

change_at-here :
    (i : ℕ) (f : Sender → Option Sender) (l l' : List Sender) (x : Sender)
    → change_at i f l ≡ some l'
    → sender_at i l ≡ some x
    → (y : Sender) × (f x ≡ some y) × (sender_at i l' ≡ some y)
unfolding change_at sender_at
change_at-here i f [] l' x e h = ground arith
change_at-here zero f (s ∷ l) l' x e h =
    let (t, p, q) = bind-some (f s) (λ t. some (t ∷ l)) l' e in
    (t, ap f (sym (some-same h)) ∙ p, ap (sender_at 0) (sym (some-same q)))
change_at-here (suc i) f (s ∷ l) l' x e h =
    let (t, p, q) = bind-some (change_at i f l) (λ t. some (s ∷ t)) l' e in
    let (y, a, b) = change_at-here i f l t x p h in
    (y, a, ap (sender_at (suc i)) (sym (some-same q)) ∙ b)

change_at-other :
    (i j : ℕ) (f : Sender → Option Sender) (l l' : List Sender)
    → change_at j f l ≡ some l'
    → j ≢ i
    → sender_at i l' ≡ sender_at i l
unfolding change_at sender_at
change_at-other i j f [] l' e n = ground arith
change_at-other zero zero f (s ∷ l) l' e n = absurd (n refl)
change_at-other (suc i) zero f (s ∷ l) l' e n =
    let (t, p, q) = bind-some (f s) (λ t. some (t ∷ l)) l' e in
    ap (sender_at (suc i)) (sym (some-same q))
change_at-other zero (suc j) f (s ∷ l) l' e n =
    let (t, p, q) = bind-some (change_at j f l) (λ t. some (s ∷ t)) l' e in
    ap (sender_at zero) (sym (some-same q))
change_at-other (suc i) (suc j) f (s ∷ l) l' e n =
    let (t, p, q) = bind-some (change_at j f l) (λ t. some (s ∷ t)) l' e in
    ap (sender_at (suc i)) (sym (some-same q)) ∙ change_at-other i j f l t p (λ z. n (ap suc z))

read_handler-change_at :
    (id state : ℕ) (s t : Center)
    → read_handler false id state s ≡ some t
    → (change_at (worker_index s id) (set_active (not (state == 0))) s.senders ≡ some t.senders)
      × (t.centralized ≡ s.centralized)
unfolding read_handler
read_handler-change_at id state s t e =
    let (l, p, q) =
      bind-some (change_at (worker_index s id) (set_active (not (state == 0))) s.senders)
        (λ l. some (record { senders = l; centralized = s.centralized })) t e in
    (p ∙ ap (λ u. some u.senders) (some-same q), ap (λ u. u.centralized) (sym (some-same q)))

value_here : (a i : ℕ) (b : Bool) (l : List Bool) → a ≡ i → (if a == i then b ∷ l else l) ≡ b ∷ l
value_here a i b l e = ground arith

value_other : (a i : ℕ) (b : Bool) (l : List Bool) → a ≢ i → (if a == i then b ∷ l else l) ≡ l
value_other a i b l n = ground arith

handled_error : (s : Center) → some s ≡ read_handler true 0 0 s
unfolding read_handler
handled_error s = refl

-- If the messages of a connection are handled without a fault, each worker is as after one
-- `setActive` for each message that is for it, up to the first error and in their order.
pub read_messages-set_all :
    (ms : List Completion) (s t : Center) (i : ℕ) (x : Sender)
    → read_messages ms s ≡ some t
    → sender_at i s.senders ≡ some x
    → sender_at i t.senders ≡ set_all (values_for s.centralized i ms) x
unfolding read_messages values_for set_all
read_messages-set_all [] s t i x e h = ap (λ u. sender_at i u.senders) (sym (some-same e)) ∙ h
read_messages-set_all (Completion.failed ∷ ms) s t i x e h =
    ap (λ u. sender_at i u.senders) (sym (some-same (handled_error s ∙ e))) ∙ h
read_messages-set_all (Completion.message id state ∷ ms) s t i x e h =
    let val = not (state == 0) in
    let (u, p, q) = bind-some (read_handler false id state s) (read_messages ms) t e in
    let (changed, same) = read_handler-change_at id state s u p in
    elim (ℕ_discrete (worker_index s id) i) [
      | yes z ↦
          let (y, a, b) =
            change_at-here i (set_active val) s.senders u.senders x
              (ap (λ j. change_at j (set_active val) s.senders) (sym z) ∙ changed) h in
          read_messages-set_all ms u t i y q b
          ∙ ap (λ v. set_all (values_for v i ms) y) same
          ∙ ap (λ o. o >>= set_all (values_for s.centralized i ms)) (sym a)
          ∙ ap (λ l. set_all l x)
              (sym (value_here (worker_index s id) i val (values_for s.centralized i ms) z))
      | no n ↦
          read_messages-set_all ms u t i x q (
            change_at-other i (worker_index s id) (set_active val) s.senders u.senders changed n
            ∙ h)
          ∙ ap (λ v. set_all (values_for v i ms) x) same
          ∙ ap (λ l. set_all l x)
              (sym (value_other (worker_index s id) i val (values_for s.centralized i ms) n))
    ]
