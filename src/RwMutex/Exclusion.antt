-- ===== src/RwMutex/Exclusion.antt =====
-- A writer of the mutex of libs/mt/ot-mt.h is alone, whatever the threads do.
use obtools.Common.{
  ℕ, zero, suc, ◌+◌, ◌^◌, ◌<◌, ◌≡◌, ◌≢◌, refl, sym, subst, ap, ◌∙◌, inl, inr, List, [], ◌∷◌, get_or,
  length, replicate, ltb, ltb→lt, Bool-cases, arith,
}
use obtools.RwMutex.{
  RwMutex, Phase, idle, reader_waits, waits_for_readers, waits_for_writer, reading, writing, State,
  Request, lock_read, unlock_read, lock_write, unlock_write, wake, respond, turn, run, make,
}
use obtools.RwMutex.Counting.{total_one, total_two, total-replicate, reads, waits, through, writes}
use obtools.RwMutex.Moves.{Fine, Fine-later}
use obtools.RwMutex.Calls.{
  Responds, stays, pass_writers-Responds, lock_reader-Responds, unlock_reader-Responds,
  pass_writer-Responds, pass_readers-Responds, lock_writer-Responds, nested_lock-Responds,
  nested_unlock-Responds, relock-Responds, unlock_writer-Responds,
}

module _ (b i : ℕ) (small : suc b < 2 ^ 32) (ts : List Phase) (there : i < length ts) (m : RwMutex)
    (f : Fine b m ts) where
  same : (p : Phase) → get_or ts i idle ≡ p → Responds b i small ts there (m, p)
  same p at = subst (λ p. Responds b i small ts there (m, p)) at (stays b i small ts there m f)

  respond-Responds :
      (p : Phase) (q : Request)
      → get_or ts i idle ≡ p
      → Responds b i small ts there (respond i p q m)
  unfolding respond
  respond-Responds idle lock_read at =
      lock_reader-Responds b i small ts there (reading 0) m f (ap waits at) (ap through at)
        (ap writes at) (sym (ap (λ p. suc (reads p)) at)) refl refl refl
  respond-Responds idle unlock_read at = same idle at
  respond-Responds idle lock_write at =
      lock_writer-Responds b i small ts there (writing 0) m f (ap reads at) (ap writes at)
        (ap waits at)
  respond-Responds idle unlock_write at = same idle at
  respond-Responds idle wake at = same idle at
  respond-Responds reader_waits lock_read at = same reader_waits at
  respond-Responds reader_waits unlock_read at = same reader_waits at
  respond-Responds reader_waits lock_write at = same reader_waits at
  respond-Responds reader_waits unlock_write at = same reader_waits at
  respond-Responds reader_waits wake at =
      pass_writers-Responds b i small ts there m f (ap reads at) (ap waits at) (ap through at)
        (ap writes at)
  respond-Responds waits_for_readers lock_read at = same waits_for_readers at
  respond-Responds waits_for_readers unlock_read at = same waits_for_readers at
  respond-Responds waits_for_readers lock_write at = same waits_for_readers at
  respond-Responds waits_for_readers unlock_write at = same waits_for_readers at
  respond-Responds waits_for_readers wake at =
      pass_readers-Responds b i small ts there m.writers_waiting m f (ap reads at) (ap writes at)
        (omega (arith, f.waiting, ap waits at))
  respond-Responds waits_for_writer lock_read at = same waits_for_writer at
  respond-Responds waits_for_writer unlock_read at = same waits_for_writer at
  respond-Responds waits_for_writer lock_write at = same waits_for_writer at
  respond-Responds waits_for_writer unlock_write at = same waits_for_writer at
  respond-Responds waits_for_writer wake at =
      pass_writer-Responds b i small ts there m.writers_waiting m f (ap reads at) (ap writes at)
        (omega (arith, f.waiting, ap waits at))
        (f.alone (omega (arith, total_one through ts i there, ap through at)))
  respond-Responds (reading zero) lock_read at =
      lock_reader-Responds b i small ts there (reading 1) m f (ap waits at) (ap through at)
        (ap writes at) (sym (ap (λ p. suc (reads p)) at)) refl refl refl
  respond-Responds (reading zero) unlock_read at =
      unlock_reader-Responds b i small ts there idle m f (ap waits at) (ap through at)
        (ap writes at) (ap reads at) refl refl refl
  respond-Responds (reading zero) lock_write at = same (reading zero) at
  respond-Responds (reading zero) unlock_write at = same (reading zero) at
  respond-Responds (reading zero) wake at = same (reading zero) at
  respond-Responds (reading (suc d)) lock_read at =
      lock_reader-Responds b i small ts there (reading (suc (suc d))) m f (ap waits at)
        (ap through at) (ap writes at) (sym (ap (λ p. suc (reads p)) at)) refl refl refl
  respond-Responds (reading (suc d)) unlock_read at =
      unlock_reader-Responds b i small ts there (reading d) m f (ap waits at) (ap through at)
        (ap writes at) (ap reads at) refl refl refl
  respond-Responds (reading (suc d)) lock_write at = same (reading (suc d)) at
  respond-Responds (reading (suc d)) unlock_write at = same (reading (suc d)) at
  respond-Responds (reading (suc d)) wake at = same (reading (suc d)) at
  respond-Responds (writing zero) lock_read at = nested_lock-Responds b i small ts there m f 0 at 1
  respond-Responds (writing zero) unlock_read at = same (writing zero) at
  respond-Responds (writing zero) lock_write at = relock-Responds b i small ts there m f 0 at 0
  respond-Responds (writing zero) unlock_write at =
      unlock_writer-Responds b i small ts there m f 0 at 0
  respond-Responds (writing zero) wake at = same (writing zero) at
  respond-Responds (writing (suc d)) lock_read at =
      nested_lock-Responds b i small ts there m f (suc d) at (suc (suc d))
  respond-Responds (writing (suc d)) unlock_read at =
      nested_unlock-Responds b i small ts there m f (suc d) at d
  respond-Responds (writing (suc d)) lock_write at =
      relock-Responds b i small ts there m f (suc d) at (suc d)
  respond-Responds (writing (suc d)) unlock_write at = elim (Bool-cases (ltb 1 m.count)) [
    | inl t ↦ rw t (unlock_writer-Responds b i small ts there m f (suc d) at (suc d))
    | inr t ↦ rw t (same (writing (suc d)) at)
  ]
  respond-Responds (writing (suc d)) wake at = same (writing (suc d)) at

turn-Fine :
    (b i : ℕ) (q : Request) (s : State)
    → suc b < 2 ^ 32
    → Fine b s.mutex s.threads
    → Fine (suc b) (turn i q s).mutex (turn i q s).threads
unfolding turn
turn-Fine b i q s small f = elim (Bool-cases (ltb i (length s.threads))) [
  | inl t ↦ rw t (
      respond-Responds b i small s.threads (ltb→lt i _ t) s.mutex f (get_or s.threads i idle) q
        refl)
  | inr t ↦ rw t (Fine-later b s.mutex s.threads f)
]

run-Fine :
    (b : ℕ) (turns : List (ℕ × Request)) (s : State)
    → b + length turns < 2 ^ 32
    → Fine b s.mutex s.threads
    → (c : ℕ) × Fine c (run turns s).mutex (run turns s).threads
unfolding run
run-Fine b [] s small f = (b, f)
run-Fine b ((i, q) ∷ turns) s small f =
    run-Fine (suc b) turns (turn i q s) (omega arith) (turn-Fine b i q s (omega arith) f)

make-Fine : (n count writer : ℕ) → Fine 0 (make count writer) (replicate n idle)
unfolding make
make-Fine n count writer = record {
  readers = sym (total-replicate reads n refl);
  waiting = sym (total-replicate waits n refl);
  alone = λ h. total-replicate reads n refl;
  few = omega (arith, total-replicate reads n refl);
  few_waiting = omega (arith, total-replicate waits n refl);
  held = inr (refl, total-replicate writes n refl);
}

-- Where the threads are after turns of theirs, from the start on.
abbrev pub reached : ℕ → ℕ → ℕ → List (ℕ × Request) → State
reached n count writer turns =
    run turns (record { mutex = make count writer; threads = replicate n idle })

-- Any number of threads start without a lock and take turns, in any order, at locking, unlocking and
-- waking, less than 2 ^ 32 turns in all. While one of them has the write lock, another has neither
-- that lock nor a read lock, and the mutex counts no active readers.
pub run_exclusive :
    (n count writer : ℕ) (turns : List (ℕ × Request)) (i j : ℕ)
    → length turns < 2 ^ 32
    → i < length (reached n count writer turns).threads
    → j < length (reached n count writer turns).threads
    → i ≢ j
    → writes (get_or (reached n count writer turns).threads i idle) ≡ 1
    → (writes (get_or (reached n count writer turns).threads j idle) ≡ 0)
      × (reads (get_or (reached n count writer turns).threads j idle) ≡ 0)
      × ((reached n count writer turns).mutex.readers_active ≡ 0)
run_exclusive n count writer turns i j small l k ne x =
    let (c, f) =
      run-Fine 0 turns (record { mutex = make count writer; threads = replicate n idle })
        (omega arith) (make-Fine n count writer) in
    let ts = (reached n count writer turns).threads in
    elim f.held [
      | inl h ↦ (
        omega (arith, h.1, x, total_two writes ts i j l k ne),
        omega (arith, h.2, total_one reads ts j k),
        f.readers ∙ h.2,
      )
      | inr h ↦ absurd (omega (arith, h.1, x, total_one writes ts i l))
    ]
