-- ===== src/Ring/Examples.antt =====
-- Runs of the ring buffer of libs/ring/ot-ring.h, and its theorems at concrete inputs.
use obtools.Common.{ℕ, ◌≡◌, refl, List, [], ◌∷◌, ◌++◌, true, false, none, some, arith}
use obtools.Ring.{Buffer, IsValid, inc, make, put, get, flush_from_put, size, used, contents}
use obtools.Ring.Queue.{
  Call, putting, getting, flushing_put, accepted, fetched, flushed, call, answers, answers_spec,
  answers-make, make-IsValid, put-IsValid,
}
use obtools.Ring.Threads
use obtools.Ring.Threads.{run, turn}
use obtools.Ring.Threads.Fifo.{start, run_fifo}
use obtools.Ring.Threads.Race.{outside, get_in_flush, flush_race}

abbrev calls : List (Call ℕ)
calls =
    putting 7 ∷ putting 8 ∷ putting 9 ∷ getting ∷ putting 9 ∷ getting ∷ flushing_put ∷ getting ∷ []

-- A buffer for two items refuses the third, and takes it when one is gone.
answers_run :
    answers 0 calls (make 0 2)
    ≡ accepted true
      ∷ accepted true
      ∷ accepted false
      ∷ fetched (some 7)
      ∷ accepted true
      ∷ fetched (some 8)
      ∷ flushed
      ∷ fetched none
      ∷ []
unfolding answers call put get flush_from_put make inc
answers_run = refl

answers-make_example : answers 0 calls (make 0 2) ≡ answers_spec 2 calls []
answers-make_example = answers-make 0 2 calls (omega arith)

abbrev one_in : Buffer ℕ
one_in = (put 7 (make 0 2)).0

one_in-IsValid : IsValid one_in
one_in-IsValid = put-IsValid 0 (make 0 2) (make-IsValid 0 2 (omega arith)) 7

abbrev schedule : List (Threads.Turn ℕ)
schedule =
    Threads.putting 7
    ∷ Threads.putting 7
    ∷ Threads.getting
    ∷ Threads.putting 7
    ∷ Threads.getting
    ∷ Threads.putting 8
    ∷ Threads.getting
    ∷ Threads.getting
    ∷ Threads.putting 8
    ∷ []

run_fifo_example :
    ((run 0 schedule (start 0 2)).sent
      ≡ (run 0 schedule (start 0 2)).got ++ contents 0 (run 0 schedule (start 0 2)).ring)
    × IsValid (run 0 schedule (start 0 2)).ring
run_fifo_example = run_fifo 0 2 schedule (omega arith) (omega arith)

run-schedule : (run 0 schedule (start 0 2)).got ≡ 7 ∷ []
unfolding run turn make inc
run-schedule = refl

flush_race_example :
    (used (run 0 (Threads.flushing ∷ Threads.flushing ∷ []) (outside 0 one_in (7 ∷ []) [])).ring
      ≡ 0)
    × (used (run 0 (get_in_flush 0 one_in (7 ∷ []) []) (outside 0 one_in (7 ∷ []) [])).ring
        ≡ size one_in)
flush_race_example =
    flush_race 0 one_in (7 ∷ []) [] one_in-IsValid (unfold used put make inc in omega arith)
