-- ===== src/RwMutex/Counting.antt =====
-- Sums over the threads of a state of the reader and writer mutex of libs/mt/ot-mt.h.
use obtools.Common.{
  ℕ, zero, suc, ◌+◌, ◌≤◌, ◌<◌, ◌≡◌, ◌≢◌, refl, ap, List, [], ◌∷◌, get_or, set, length, replicate,
  arith,
}
use obtools.RwMutex.{Phase, idle, waits_for_readers, waits_for_writer, reading, writing}

abbrev pub total : (Phase → ℕ) → List Phase → ℕ
total f [] = 0
total f (p ∷ ps) = f p + total f ps

pub total-set :
    (f : Phase → ℕ) (ps : List Phase) (i : ℕ) (p : Phase)
    → i < length ps
    → total f (set ps i p) + f (get_or ps i idle) ≡ total f ps + f p
total-set f [] i p h = absurd (omega arith)
total-set f (q ∷ ps) zero p h = omega arith
total-set f (q ∷ ps) (suc i) p h = omega (arith, total-set f ps i p (omega arith))

pub total_one :
    (f : Phase → ℕ) (ps : List Phase) (i : ℕ) → i < length ps → f (get_or ps i idle) ≤ total f ps
total_one f [] i h = absurd (omega arith)
total_one f (q ∷ ps) zero h = omega arith
total_one f (q ∷ ps) (suc i) h = omega (arith, total_one f ps i (omega arith))

pub total_two :
    (f : Phase → ℕ) (ps : List Phase) (i j : ℕ)
    → i < length ps
    → j < length ps
    → i ≢ j
    → f (get_or ps i idle) + f (get_or ps j idle) ≤ total f ps
total_two f [] i j h g n = absurd (omega arith)
total_two f (q ∷ ps) zero zero h g n = absurd (n refl)
total_two f (q ∷ ps) zero (suc j) h g n = omega (arith, total_one f ps j (omega arith))
total_two f (q ∷ ps) (suc i) zero h g n = omega (arith, total_one f ps i (omega arith))
total_two f (q ∷ ps) (suc i) (suc j) h g n =
    omega (arith, total_two f ps i j (omega arith) (omega arith) (λ e. n (ap suc e)))

pub total-replicate : (f : Phase → ℕ) (n : ℕ) → f idle ≡ 0 → total f (replicate n idle) ≡ 0
total-replicate f zero h = refl
total-replicate f (suc n) h = omega (arith, h, total-replicate f n h)

-- The read locks that a thread holds outside of a write lock, and whether it waits for the write
-- lock, waits for it with the readers behind it, or has it.
abbrev pub reads : Phase → ℕ
reads (reading d) = suc d
reads p = 0

abbrev pub waits : Phase → ℕ
waits waits_for_readers = 1
waits waits_for_writer = 1
waits p = 0

abbrev pub through : Phase → ℕ
through waits_for_writer = 1
through p = 0

abbrev pub writes : Phase → ℕ
writes (writing d) = 1
writes p = 0
