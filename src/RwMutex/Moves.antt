-- ===== src/RwMutex/Moves.antt =====
-- What a change of one thread's phase does to the mutex of libs/mt/ot-mt.h and its counts.
use obtools.Common.{
  ℕ, zero, suc, ◌+◌, ◌≤◌, ◌<◌, ◌≡◌, ◌≢◌, refl, sym, ap, ◌∙◌, ◌⊎◌, inl, inr, List, [], ◌∷◌, true,
  false, get_or, get_or-set_self, get_or-set_ne, set, length, length-set, ltb, ltb→lt, ◌==◌, ==→≡,
  Bool-cases, arith,
}
use obtools.RwMutex.{
  RwMutex, Phase, idle, reader_waits, waits_for_readers, waits_for_writer, reading, writing, owns,
}
use obtools.RwMutex.Counting.{total, total-set, total_one, total_two, reads, waits, through, writes}

-- A thread that is past the readers waits.
pub through-waits : (ts : List Phase) → total through ts ≤ total waits ts
through-waits [] = omega arith
through-waits (idle ∷ ts) = omega (arith, through-waits ts)
through-waits (reader_waits ∷ ts) = omega (arith, through-waits ts)
through-waits (waits_for_readers ∷ ts) = omega (arith, through-waits ts)
through-waits (waits_for_writer ∷ ts) = omega (arith, through-waits ts)
through-waits (reading d ∷ ts) = omega (arith, through-waits ts)
through-waits (writing d ∷ ts) = omega (arith, through-waits ts)

-- The write lock is held by the thread that the mutex names, and nothing else is held; or it is free.
abbrev pub Held : ℕ → RwMutex → List Phase → Type 0
Held b m ts =
    ((m.writer_active ≡ true)
      × (total writes ts ≡ 1)
      × (total reads ts ≡ 0)
      × (m.writer < length ts)
      × (writes (get_or ts m.writer idle) ≡ 1)
      × (0 < m.count)
      × (m.count ≤ b))
    ⊎ ((m.writer_active ≡ false) × (total writes ts ≡ 0))

pub record Fine (b : ℕ) (m : RwMutex) (ts : List Phase) : Type 0 where
  pub readers : m.readers_active ≡ total reads ts
  pub waiting : m.writers_waiting ≡ total waits ts
  pub alone : 0 < total through ts → total reads ts ≡ 0
  pub few : total reads ts ≤ b
  pub few_waiting : total waits ts ≤ b
  pub held : Held b m ts

pub set-get_or : (ts : List Phase) (i : ℕ) → set ts i (get_or ts i idle) ≡ ts
set-get_or [] i = refl
set-get_or (p ∷ ts) zero = refl
set-get_or (p ∷ ts) (suc i) = ap (λ u. p ∷ u) (set-get_or ts i)

pub Held-later : (b : ℕ) (m : RwMutex) (ts : List Phase) → Held b m ts → Held (suc b) m ts
Held-later b m ts (inl (a, w, r, l, h, c, d)) = inl (a, w, r, l, h, c, omega arith)
Held-later b m ts (inr h) = inr h

pub Fine-later : (b : ℕ) (m : RwMutex) (ts : List Phase) → Fine b m ts → Fine (suc b) m ts
Fine-later b m ts f = record {
  readers = f.readers;
  waiting = f.waiting;
  alone = f.alone;
  few = omega (arith, f.few);
  few_waiting = omega (arith, f.few_waiting);
  held = Held-later b m ts f.held;
}

-- Which thread owns the write lock.
pub owns_writes :
    (b i : ℕ) (m : RwMutex) (ts : List Phase)
    → Held b m ts
    → owns i m ≡ true
    → writes (get_or ts i idle) ≡ 1
unfolding owns
owns_writes b i m ts (inl (a, w, r, l, h, c, d)) o =
    let e : m.writer ≡ i = ==→≡ m.writer i (rw a at o) in
    ap (λ k. writes (get_or ts k idle)) (sym e) ∙ h
owns_writes b i m ts (inr (a, w)) o = absurd (ground (arith, rw a at o))

pub writes_owns :
    (b i : ℕ) (m : RwMutex) (ts : List Phase)
    → i < length ts
    → Held b m ts
    → writes (get_or ts i idle) ≡ 1
    → (m.writer_active ≡ true) × (m.writer ≡ i) × (owns i m ≡ true)
unfolding owns
writes_owns b i m ts l (inr (a, w)) h = absurd (omega (arith, total_one writes ts i l))
writes_owns b i m ts l (inl (a, w, r, lw, hw, c, d)) h = elim (Bool-cases (m.writer == i)) [
  | inl t ↦ (a, ==→≡ m.writer i t, rw (a, t) refl)
  | inr f ↦
      (let ne : m.writer ≢ i = λ e. ground (arith, f, e) in
        absurd (omega (arith, total_two writes ts m.writer i lw l ne)))
]

-- A thread without a lock or a wait, or with read locks, takes one read lock more or gives one back.
pub reader_moves :
    (b i k : ℕ) (m : RwMutex) (ts : List Phase) (p : Phase)
    → i < length ts
    → Fine b m ts
    → m.writer_active ≡ false
    → waits (get_or ts i idle) ≡ 0
    → through (get_or ts i idle) ≡ 0
    → writes (get_or ts i idle) ≡ 0
    → waits p ≡ 0
    → through p ≡ 0
    → writes p ≡ 0
    → total through ts ≡ 0
    → k ≡ total reads (set ts i p)
    → total reads (set ts i p) ≤ suc b
    → Fine (suc b) (record m { readers_active = k }) (set ts i p)
reader_moves b i k m ts p l f free w0 t0 x0 w1 t1 x1 none e few = record {
  readers = e;
  waiting = f.waiting ∙ omega (arith, total-set waits ts i p l);
  alone = λ h. absurd (omega (arith, total-set through ts i p l));
  few = few;
  few_waiting = omega (arith, f.few_waiting, total-set waits ts i p l);
  held = inr (free, omega (arith, total-set writes ts i p l, total_writes));
}
  where
    total_writes : total writes ts ≡ 0
    total_writes = elim f.held [ inl h ↦ absurd (ground (arith, sym h.0 ∙ free)) | inr h ↦ h.1 ]

-- A thread without the write lock changes its phase, and the read locks are as they were.
pub Held-other :
    (b i : ℕ) (m : RwMutex) (ts : List Phase) (p : Phase)
    → i < length ts
    → writes (get_or ts i idle) ≡ 0
    → writes p ≡ 0
    → total reads (set ts i p) ≡ total reads ts
    → Held b m ts
    → Held (suc b) m (set ts i p)
Held-other b i m ts p l x0 x1 same (inr (a, w)) = inr (a, omega (arith, total-set writes ts i p l))
Held-other b i m ts p l x0 x1 same (inl (a, w, r, lw, h, c, d)) = inl (
  a,
  omega (arith, total-set writes ts i p l),
  omega (arith, same),
  omega (arith, length-set ts i p),
  ap writes (get_or-set_ne ts i m.writer p idle ne) ∙ h,
  c,
  omega arith,
)
  where
    ne : i ≢ m.writer
    ne e = absurd (omega (arith, ap (λ k. writes (get_or ts k idle)) e))

-- A thread begins or goes on to wait for the write lock.
pub writer_waits :
    (b i k : ℕ) (m : RwMutex) (ts : List Phase) (p : Phase)
    → i < length ts
    → Fine b m ts
    → reads (get_or ts i idle) ≡ 0
    → writes (get_or ts i idle) ≡ 0
    → reads p ≡ 0
    → writes p ≡ 0
    → waits p ≡ 1
    → k + waits (get_or ts i idle) ≡ total waits ts + 1
    → (0 < through p → total reads ts ≡ 0)
    → Fine (suc b) (record m { writers_waiting = k }) (set ts i p)
writer_waits b i k m ts p l f r0 x0 r1 x1 w1 e gate = record {
  readers = f.readers ∙ omega (arith, total-set reads ts i p l);
  waiting = omega (arith, total-set waits ts i p l);
  alone = λ h. omega (arith, no_readers h, total-set reads ts i p l);
  few = omega (arith, f.few, total-set reads ts i p l);
  few_waiting = omega (arith, f.few_waiting, total-set waits ts i p l);
  held = Held-other b i m ts p l x0 x1 (omega (arith, total-set reads ts i p l)) f.held;
}
  where
    no_readers : 0 < total through (set ts i p) → total reads ts ≡ 0
    no_readers h = elim (Bool-cases (ltb 0 (total through ts))) [
      | inl t ↦ f.alone (ltb→lt 0 _ t)
      | inr t ↦ gate (ground (arith, total-set through ts i p l))
    ]

-- A thread takes the write lock, where it is free and nobody reads.
pub writer_claims :
    (b i k : ℕ) (m : RwMutex) (ts : List Phase)
    → i < length ts
    → Fine b m ts
    → m.writer_active ≡ false
    → total reads ts ≡ 0
    → reads (get_or ts i idle) ≡ 0
    → writes (get_or ts i idle) ≡ 0
    → k + waits (get_or ts i idle) ≡ total waits ts
    → Fine
        (suc b)
        (record m { writers_waiting = k; writer_active = true; writer = i; count = 1 })
        (set ts i (writing 0))
writer_claims b i k m ts l f free none r0 x0 e = record {
  readers = f.readers ∙ omega (arith, total-set reads ts i (writing 0) l);
  waiting = omega (arith, total-set waits ts i (writing 0) l);
  alone = λ h. omega (arith, total-set reads ts i (writing 0) l);
  few = omega (arith, f.few, total-set reads ts i (writing 0) l);
  few_waiting = omega (arith, f.few_waiting, total-set waits ts i (writing 0) l);
  held = inl (
    refl,
    omega (arith, total-set writes ts i (writing 0) l, total_writes),
    omega (arith, total-set reads ts i (writing 0) l),
    omega (arith, length-set ts i (writing 0)),
    ap writes (get_or-set_self ts i (writing 0) idle l),
    omega arith,
    omega arith,
  );
}
  where
    total_writes : total writes ts ≡ 0
    total_writes = elim f.held [ inl h ↦ absurd (ground (arith, sym h.0 ∙ free)) | inr h ↦ h.1 ]

-- The owner of the write lock keeps it, with another count.
pub owner_stays :
    (b i c : ℕ) (m : RwMutex) (ts : List Phase) (p : Phase)
    → i < length ts
    → Fine b m ts
    → reads (get_or ts i idle) ≡ 0
    → waits (get_or ts i idle) ≡ 0
    → through (get_or ts i idle) ≡ 0
    → writes (get_or ts i idle) ≡ 1
    → reads p ≡ 0
    → waits p ≡ 0
    → through p ≡ 0
    → writes p ≡ 1
    → 0 < c
    → c ≤ suc b
    → Fine (suc b) (record m { count = c }) (set ts i p)
owner_stays b i c m ts p l f r0 w0 t0 x0 r1 w1 t1 x1 pos few = record {
  readers = f.readers ∙ omega (arith, total-set reads ts i p l);
  waiting = f.waiting ∙ omega (arith, total-set waits ts i p l);
  alone = λ h. omega (arith, total-set reads ts i p l, none.1);
  few = omega (arith, f.few, total-set reads ts i p l);
  few_waiting = omega (arith, f.few_waiting, total-set waits ts i p l);
  held = inl (
    own.0,
    omega (arith, total-set writes ts i p l, none.0),
    omega (arith, total-set reads ts i p l, none.1),
    omega (arith, own.1, length-set ts i p),
    ap (λ k. writes (get_or (set ts i p) k idle)) own.1
        ∙ ap writes (get_or-set_self ts i p idle l)
        ∙ x1,
    pos,
    few,
  );
}
  where
    own : (m.writer_active ≡ true) × (m.writer ≡ i) × (owns i m ≡ true)
    own = writes_owns b i m ts l f.held x0

    none : (total writes ts ≡ 1) × (total reads ts ≡ 0)
    none = elim f.held [ inl h ↦ (h.1, h.2) | inr h ↦ absurd (ground (arith, sym own.0 ∙ h.0)) ]

-- The owner gives the write lock back.
pub owner_leaves :
    (b i c : ℕ) (m : RwMutex) (ts : List Phase)
    → i < length ts
    → Fine b m ts
    → reads (get_or ts i idle) ≡ 0
    → waits (get_or ts i idle) ≡ 0
    → through (get_or ts i idle) ≡ 0
    → writes (get_or ts i idle) ≡ 1
    → Fine (suc b) (record m { count = c; writer_active = false }) (set ts i idle)
owner_leaves b i c m ts l f r0 w0 t0 x0 = record {
  readers = f.readers ∙ omega (arith, total-set reads ts i idle l);
  waiting = f.waiting ∙ omega (arith, total-set waits ts i idle l);
  alone = λ h. omega (arith, total-set reads ts i idle l, none.1);
  few = omega (arith, f.few, total-set reads ts i idle l);
  few_waiting = omega (arith, f.few_waiting, total-set waits ts i idle l);
  held = inr (refl, omega (arith, total-set writes ts i idle l, none.0));
}
  where
    none : (total writes ts ≡ 1) × (total reads ts ≡ 0)
    none = elim f.held [
      | inl h ↦ (h.1, h.2)
      | inr h ↦ absurd (omega (arith, total_one writes ts i l, h.1))
    ]
