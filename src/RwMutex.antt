-- ===== src/RwMutex.antt =====
-- The mutex of many readers and one writer: class RWMutex of libs/mt/ot-mt.h. Every call holds the
-- inner mutex except while it waits, so that the threads take turns at what is done between two
-- waits; a waiting thread may wake at any turn.
pub mod Counting
pub mod Moves
pub mod Calls
pub mod Exclusion
pub mod Starvation
mod Examples
use obtools.Common.{
  ℕ, zero, suc, ◌+◌, ◌-◌, ◌%◌, ◌^◌, List, [], ◌∷◌, Bool, true, false, ◌&&◌, ◌||◌, get_or, set,
  length, ltb, ◌==◌, if◌then◌else◌,
}

pub record RwMutex : Type 0 where
  pub readers_active : ℕ
  pub writers_waiting : ℕ
  pub writer_active : Bool
  pub count : ℕ
  pub writer : ℕ

-- Where a thread is: in none of the calls and without a lock, at one of the three waits, with one more
-- read lock than the number, or with the write lock and read locks inside it.
pub data Phase : Type 0 where
  idle : Phase
  reader_waits : Phase
  waits_for_readers : Phase
  waits_for_writer : Phase
  reading : ℕ → Phase
  writing : ℕ → Phase

unfoldable pub increment : ℕ → ℕ
increment n = (n + 1) % 2 ^ 32

unfoldable pub decrement : ℕ → ℕ
decrement n = (n + 2 ^ 32 - 1) % 2 ^ 32

unfoldable pub owns : ℕ → RwMutex → Bool
owns self m = m.writer_active && (m.writer == self)

-- A reader that may go on once there is no writer.
unfoldable pub pass_writers : RwMutex → RwMutex × Phase
pass_writers m =
    if ltb 0 m.writers_waiting || m.writer_active
    then (m, reader_waits)
    else (record m { readers_active = increment m.readers_active }, reading 0)

-- A thread with its phase before the call; `reads` and `next` are what it has with one lock more.
unfoldable pub lock_reader : ℕ → Phase → RwMutex → RwMutex × Phase
lock_reader self next m =
    if owns self m
    then (m, next)
    else if m.readers_active == 0
    then pass_writers m
    else (record m { readers_active = increment m.readers_active }, next)

unfoldable pub unlock_reader : ℕ → Phase → RwMutex → RwMutex × Phase
unlock_reader self next m =
    if owns self m
    then (m, next)
    else (record m { readers_active = decrement m.readers_active }, next)

unfoldable pub pass_writer : ℕ → RwMutex → RwMutex × Phase
pass_writer self m = if m.writer_active then (m, waits_for_writer) else (
  record m {
    writers_waiting = decrement m.writers_waiting;
    writer_active = true;
    writer = self;
    count = 1;
  },
  writing 0,
)

unfoldable pub pass_readers : ℕ → RwMutex → RwMutex × Phase
pass_readers self m = if ltb 0 m.readers_active then (m, waits_for_readers) else pass_writer self m

unfoldable pub lock_writer : ℕ → Phase → RwMutex → RwMutex × Phase
lock_writer self next m =
    if owns self m
    then (record m { count = increment m.count }, next)
    else pass_readers self (record m { writers_waiting = increment m.writers_waiting })

unfoldable pub unlock_writer : Phase → RwMutex → RwMutex × Phase
unlock_writer next m =
    let m' = record m { count = decrement m.count } in
    if m'.count == 0 then (record m' { writer_active = false }, idle) else (m', next)

pub record State : Type 0 where
  pub mutex : RwMutex
  pub threads : List Phase

pub data Request : Type 0 where
  lock_read : Request
  unlock_read : Request
  lock_write : Request
  unlock_write : Request
  wake : Request

-- A thread releases only what it holds, the read locks inside a write lock before the last of the
-- write locks, and takes no write lock inside a read lock: the class documents that as not allowed.
unfoldable pub respond : ℕ → Phase → Request → RwMutex → RwMutex × Phase
respond self idle lock_read m = lock_reader self (reading 0) m
respond self idle lock_write m = lock_writer self (writing 0) m
respond self reader_waits wake m = pass_writers m
respond self waits_for_readers wake m = pass_readers self m
respond self waits_for_writer wake m = pass_writer self m
respond self (reading d) lock_read m = lock_reader self (reading (suc d)) m
respond self (reading zero) unlock_read m = unlock_reader self idle m
respond self (reading (suc d)) unlock_read m = unlock_reader self (reading d) m
respond self (writing d) lock_read m = lock_reader self (writing (suc d)) m
respond self (writing (suc d)) unlock_read m = unlock_reader self (writing d) m
respond self (writing d) lock_write m = lock_writer self (writing d) m
respond self (writing zero) unlock_write m = unlock_writer (writing zero) m
respond self (writing (suc d)) unlock_write m =
    if ltb 1 m.count then unlock_writer (writing (suc d)) m else (m, writing (suc d))
respond self p q m = (m, p)

-- A turn of a thread that is not there does nothing.
unfoldable pub turn : ℕ → Request → State → State
turn i q s =
    let r = respond i (get_or s.threads i idle) q s.mutex in
    if ltb i (length s.threads) then record { mutex = r.0; threads = set s.threads i r.1 } else s

unfoldable pub run : List (ℕ × Request) → State → State
run [] s = s
run ((i, q) ∷ turns) s = run turns (turn i q s)

-- The constructor leaves the count and the writer as they are: any numbers.
unfoldable pub make : ℕ → ℕ → RwMutex
make count writer = record {
  readers_active = 0;
  writers_waiting = 0;
  writer_active = false;
  count = count;
  writer = writer;
}
