-- ===== src/RwMutex/Starvation.antt =====
-- A writer that waits for ever at the mutex of libs/mt/ot-mt.h.
use obtools.Common.{ℕ, zero, suc, ◌≡◌, refl, ap, ◌∙◌, List, [], ◌∷◌, ◌++◌, false, replicate}
use obtools.RwMutex.{
  idle, waits_for_readers, reading, increment, decrement, owns, pass_writers, lock_reader,
  unlock_reader, pass_writer, pass_readers, lock_writer, State, Request, lock_read, unlock_read,
  lock_write, wake, respond, turn, run, make,
}
use obtools.RwMutex.Exclusion.{reached}

run-append : (xs ys : List (ℕ × Request)) (s : State) → run (xs ++ ys) s ≡ run ys (run xs s)
unfolding run
run-append [] ys s = refl
run-append ((i, q) ∷ xs) ys s = run-append xs ys (turn i q s)

-- Thread 1 reads, and thread 0 asks for the write lock.
abbrev pub opening : List (ℕ × Request)
opening = (1, lock_read) ∷ (0, lock_write) ∷ []

-- Thread 2 begins to read, thread 1 ends and begins again, thread 2 ends, and the writer wakes up in
-- between.
abbrev pub round : List (ℕ × Request)
round =
    (2, lock_read)
    ∷ (0, wake)
    ∷ (1, unlock_read)
    ∷ (0, wake)
    ∷ (1, lock_read)
    ∷ (2, unlock_read)
    ∷ (0, wake)
    ∷ []

abbrev pub rounds : ℕ → List (ℕ × Request)
rounds zero = []
rounds (suc n) = round ++ rounds n

abbrev pub waiting : ℕ → ℕ → State
waiting count writer = record {
  mutex = record {
    readers_active = 1;
    writers_waiting = 1;
    writer_active = false;
    count = count;
    writer = writer;
  };
  threads = waits_for_readers ∷ reading 0 ∷ idle ∷ [];
}

round_waiting : (count writer : ℕ) → run round (waiting count writer) ≡ waiting count writer
unfolding increment decrement owns pass_writers lock_reader unlock_reader pass_writer pass_readers
    lock_writer respond turn run
round_waiting count writer = refl

opening_waiting : (count writer : ℕ) → reached 3 count writer opening ≡ waiting count writer
unfolding increment decrement owns pass_writers lock_reader unlock_reader pass_writer pass_readers
    lock_writer respond turn run make
opening_waiting count writer = refl

rounds_waiting : (n count writer : ℕ) → run (rounds n) (waiting count writer) ≡ waiting count writer
unfolding run
rounds_waiting zero count writer = refl
rounds_waiting (suc n) count writer =
    run-append round (rounds n) (waiting count writer)
    ∙ ap (run (rounds n)) (round_waiting count writer)
    ∙ rounds_waiting n count writer

-- A waiting writer has no priority over new readers while another reads: two threads that read in
-- turns, each beginning before the other ends, keep a writer waiting for any number of rounds,
-- although every call of theirs and of its own is made and it wakes up each time.
pub rounds_starve :
    (n count writer : ℕ) → reached 3 count writer (opening ++ rounds n) ≡ waiting count writer
rounds_starve n count writer =
    run-append opening (rounds n) (record { mutex = make count writer; threads = replicate 3 idle })
    ∙ ap (run (rounds n)) (opening_waiting count writer)
    ∙ rounds_waiting n count writer
