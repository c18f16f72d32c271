-- ===== src/Scheduler/Limits/Counting.antt =====
-- Counting the workers of a task.
use cget.Prelude.{
  ℕ, zero, suc, ◌+◌, ◌≡◌, refl, some, List, [], ◌∷◌, ◌++◌, Text, text_eq, if◌then◌else◌, length,
  get_elem?, set, All, arith, subst,
}
use mathlib.Core.Option.{some-injective}
use cget.Scheduler.Defs.{Worker}
use cget.Scheduler.Steps.{remove_at}

abbrev pub is_of : Text → Worker → ℕ
is_of id w = if text_eq w.task_id id then 1 else 0

abbrev pub count_workers : Text → List Worker → ℕ
count_workers id [] = 0
count_workers id (w ∷ ws) = is_of id w + count_workers id ws

pub count_workers-append :
    (id : Text) (ws : List Worker) (w : Worker)
    → count_workers id (ws ++ w ∷ []) ≡ count_workers id ws + is_of id w
count_workers-append id [] w = omega arith
count_workers-append id (v ∷ ws) w = omega (arith, count_workers-append id ws w)

pub count_workers-remove_at :
    (id : Text) (i : ℕ) (ws : List Worker) {w : Worker}
    → get_elem? ws i ≡ some w
    → count_workers id (remove_at i ws) + is_of id w ≡ count_workers id ws
unfolding remove_at
count_workers-remove_at id i [] h = cc
count_workers-remove_at id zero (v ∷ ws) h = ground arith
count_workers-remove_at id (suc i) (v ∷ ws) h = ground (arith, count_workers-remove_at id i ws h)

pub length-remove_at {ℓ} :
    {A : Type ℓ} (i : ℕ) (xs : List A) {a : A}
    → get_elem? xs i ≡ some a
    → suc (length (remove_at i xs)) ≡ length xs
unfolding remove_at
length-remove_at i [] h = cc
length-remove_at zero (x ∷ xs) h = refl
length-remove_at (suc i) (x ∷ xs) h = omega (arith, length-remove_at i xs h)

pub All-set {ℓ κ} :
    {A : Type ℓ} (P : A → Type κ) (xs : List A) (i : ℕ) (a : A)
    → All P xs
    → P a
    → All P (set xs i a)
All-set P [] i a h p = tt
All-set P (x ∷ xs) zero a h p = (p, h.1)
All-set P (x ∷ xs) (suc i) a h p = (h.0, All-set P xs i a h.1 p)

pub All-get_elem? {ℓ κ} :
    {A : Type ℓ} (P : A → Type κ) (xs : List A) (i : ℕ) (a : A)
    → All P xs
    → get_elem? xs i ≡ some a
    → P a
All-get_elem? P [] i a h e = cc
All-get_elem? P (x ∷ xs) zero a h e = subst P (some-injective _ _ e) h.0
All-get_elem? P (x ∷ xs) (suc i) a h e = All-get_elem? P xs i a h.1 e
