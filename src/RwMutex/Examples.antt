-- ===== src/RwMutex/Examples.antt =====
-- The theorems on the mutex of libs/mt/ot-mt.h at concrete turns.
use obtools.Common.{ℕ, ◌≡◌, refl, List, [], ◌∷◌, ◌++◌, get_or, arith}
use obtools.RwMutex.{
  idle, increment, decrement, owns, pass_writers, lock_reader, unlock_reader, pass_writer,
  pass_readers, lock_writer, Request, lock_read, unlock_read, lock_write, wake, respond, turn, run,
  make,
}
use obtools.RwMutex.Counting.{reads, writes}
use obtools.RwMutex.Exclusion.{reached, run_exclusive}
use obtools.RwMutex.Starvation.{opening, rounds, waiting, rounds_starve}

-- Thread 0 reads, thread 1 waits for the write lock, and gets it once thread 0 has ended.
abbrev turns : List (ℕ × Request)
turns = (0, lock_read) ∷ (1, lock_write) ∷ (0, unlock_read) ∷ (1, wake) ∷ (0, lock_read) ∷ []

run_exclusive_example :
    (writes (get_or (reached 2 0 0 turns).threads 0 idle) ≡ 0)
    × (reads (get_or (reached 2 0 0 turns).threads 0 idle) ≡ 0)
    × ((reached 2 0 0 turns).mutex.readers_active ≡ 0)
unfolding increment decrement owns pass_writers lock_reader unlock_reader pass_writer pass_readers
    lock_writer respond turn run make
run_exclusive_example =
    run_exclusive 2 0 0 turns 1 0 (omega arith) (omega arith) (omega arith) (λ e. omega arith) refl

rounds_starve_example : reached 3 0 0 (opening ++ rounds 5) ≡ waiting 0 0
rounds_starve_example = rounds_starve 5 0 0
