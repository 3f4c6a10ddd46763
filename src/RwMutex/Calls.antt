-- ===== src/RwMutex/Calls.antt =====
-- Every call of the mutex of libs/mt/ot-mt.h keeps its counts true to the threads.
use obtools.Common.{
  ℕ, suc, ◌+◌, ◌-◌, ◌^◌, ◌≤◌, ◌<◌, ◌≡◌, refl, sym, subst, ap, ◌∙◌, inl, inr, List, true, false,
  ◌||◌, get_or, set, length, ltb, ltb→lt, ◌==◌, ==→≡, Bool-cases, arith,
}
use obtools.RwMutex.{
  RwMutex, Phase, idle, reader_waits, waits_for_readers, waits_for_writer, reading, writing,
  increment, decrement, owns, pass_writers, lock_reader, unlock_reader, pass_writer, pass_readers,
  lock_writer, unlock_writer,
}
use obtools.RwMutex.Counting.{total, total-set, total_one, reads, waits, through, writes}
use obtools.RwMutex.Moves.{
  through-waits, Fine, set-get_or, Fine-later, owns_writes, writes_owns, reader_moves, Held-other,
  writer_waits, writer_claims, owner_stays, owner_leaves,
}

pub increment_fits : (n : ℕ) → n + 1 < 2 ^ 32 → increment n ≡ n + 1
unfolding increment
increment_fits n h = omega arith

pub decrement_fits : (n : ℕ) → n < 2 ^ 32 → 0 < n → decrement n ≡ n - 1
unfolding decrement
decrement_fits n h g = omega arith

module _ (b i : ℕ) (small : suc b < 2 ^ 32) (ts : List Phase) (there : i < length ts) where
  abbrev pub Responds : RwMutex × Phase → Type 0
  Responds r = Fine (suc b) r.0 (set ts i r.1)

  abbrev before : Phase
  before = get_or ts i idle

  disowned : (m : RwMutex) → Fine b m ts → writes before ≡ 0 → owns i m ≡ false
  disowned m f x0 = elim (Bool-cases (owns i m)) [
    | inl t ↦ absurd (omega (arith, owns_writes b i m ts f.held t))
    | inr t ↦ t
  ]

  free_of_writer : (m : RwMutex) → Fine b m ts → 0 < total reads ts → m.writer_active ≡ false
  free_of_writer m f h = elim f.held [ inl g ↦ absurd (omega (arith, g.2)) | inr g ↦ g.0 ]

  none_through : (m : RwMutex) → Fine b m ts → 0 < total reads ts → total through ts ≡ 0
  none_through m f h = elim (Bool-cases (ltb 0 (total through ts))) [
    | inl t ↦ absurd (omega (arith, f.alone (ltb→lt 0 _ t)))
    | inr t ↦ ground arith
  ]

  pub stays : (m : RwMutex) → Fine b m ts → Responds (m, before)
  stays m f = rw (set-get_or ts i) (Fine-later b m ts f)

  pub pass_writers-Responds :
      (m : RwMutex)
      → Fine b m ts
      → reads before ≡ 0
      → waits before ≡ 0
      → through before ≡ 0
      → writes before ≡ 0
      → Responds (pass_writers m)
  unfolding pass_writers
  pass_writers-Responds m f r0 w0 t0 x0 =
      elim (Bool-cases (ltb 0 m.writers_waiting || m.writer_active)) [
        | inl t ↦ rw t (record {
          readers = f.readers ∙ omega (arith, total-set reads ts i reader_waits there);
          waiting = f.waiting ∙ omega (arith, total-set waits ts i reader_waits there);
          alone = λ h. omega (
            arith,
            f.alone (omega (arith, h, total-set through ts i reader_waits there)),
            total-set reads ts i reader_waits there,
          );
          few = omega (arith, f.few, total-set reads ts i reader_waits there);
          few_waiting = omega (arith, f.few_waiting, total-set waits ts i reader_waits there);
          held =
              Held-other b i m ts reader_waits there x0 refl
                (omega (arith, total-set reads ts i reader_waits there)) f.held;
        })
        | inr t ↦
            (let free : m.writer_active ≡ false = ground arith in
              let none : m.writers_waiting ≡ 0 = ground arith in
              rw t (
                reader_moves b i (increment m.readers_active) m ts (reading 0) there f free w0 t0 x0
                  refl refl refl (omega (arith, f.waiting, through-waits ts))
                  (increment_fits m.readers_active (omega (arith, f.readers, f.few))
                    ∙ omega (arith, f.readers, total-set reads ts i (reading 0) there))
                  (omega (arith, f.few, total-set reads ts i (reading 0) there))))
      ]

  -- `next` has one read lock more.
  pub lock_reader-Responds :
      (next : Phase) (m : RwMutex)
      → Fine b m ts
      → waits before ≡ 0
      → through before ≡ 0
      → writes before ≡ 0
      → reads next ≡ suc (reads before)
      → waits next ≡ 0
      → through next ≡ 0
      → writes next ≡ 0
      → Responds (lock_reader i next m)
  unfolding lock_reader
  lock_reader-Responds next m f w0 t0 x0 r1 w1 t1 x1 = elim (Bool-cases (m.readers_active == 0)) [
    | inl t ↦
        (let none : m.readers_active ≡ 0 = ==→≡ _ 0 t in
          let r0 : reads before ≡ 0 = omega (arith, total_one reads ts i there, f.readers) in
          rw (disowned m f x0, t) (pass_writers-Responds m f r0 w0 t0 x0))
    | inr t ↦
        (let some_read : 0 < total reads ts = ground (arith, f.readers) in
          let moved = total-set reads ts i next there in
          rw (disowned m f x0, t)
            (reader_moves b i (increment m.readers_active) m ts next there f
              (free_of_writer m f some_read) w0 t0 x0 w1 t1 x1 (none_through m f some_read)
              (increment_fits m.readers_active (omega (arith, f.readers, f.few))
                ∙ omega (arith, f.readers, moved, r1))
              (omega (arith, f.few, moved, r1))))
  ]

  -- `next` has one read lock less.
  pub unlock_reader-Responds :
      (next : Phase) (m : RwMutex)
      → Fine b m ts
      → waits before ≡ 0
      → through before ≡ 0
      → writes before ≡ 0
      → reads before ≡ suc (reads next)
      → waits next ≡ 0
      → through next ≡ 0
      → writes next ≡ 0
      → Responds (unlock_reader i next m)
  unfolding unlock_reader
  unlock_reader-Responds next m f w0 t0 x0 r1 w1 t1 x1 =
      let moved = total-set reads ts i next there in
      let some_read : 0 < total reads ts = omega (arith, total_one reads ts i there, r1) in
      rw (disowned m f x0) (
        reader_moves b i (decrement m.readers_active) m ts next there f
          (free_of_writer m f some_read) w0 t0 x0 w1 t1 x1 (none_through m f some_read)
          (decrement_fits m.readers_active (omega (arith, f.readers, f.few))
              (omega (arith, f.readers, some_read))
            ∙ omega (arith, f.readers, moved, r1))
          (omega (arith, f.few, moved, r1)))

  pass_writer-busy :
      (m : RwMutex) → m.writer_active ≡ true → pass_writer i m ≡ (m, waits_for_writer)
  unfolding pass_writer
  pass_writer-busy m t = rw t refl

  pass_writer-free :
      (m : RwMutex)
      → m.writer_active ≡ false
      → pass_writer i m ≡ (
        record m {
          writers_waiting = decrement m.writers_waiting;
          writer_active = true;
          writer = i;
          count = 1;
        },
        writing 0,
      )
  unfolding pass_writer
  pass_writer-free m t = rw t refl

  pub pass_writer-Responds :
      (k : ℕ) (m : RwMutex)
      → Fine b m ts
      → reads before ≡ 0
      → writes before ≡ 0
      → k + waits before ≡ total waits ts + 1
      → total reads ts ≡ 0
      → Responds (pass_writer i (record m { writers_waiting = k }))
  pass_writer-Responds k m f r0 x0 e none = elim (Bool-cases m.writer_active) [
    | inl t ↦
        subst Responds (sym (pass_writer-busy (record m { writers_waiting = k }) t))
          (writer_waits b i k m ts waits_for_writer there f r0 x0 refl refl refl e (λ h. none))
    | inr t ↦ subst Responds (sym (pass_writer-free (record m { writers_waiting = k }) t)) (
        writer_claims b i (decrement k) m ts there f t none r0 x0 (
          ap (λ u. u + waits before)
            (decrement_fits k (omega (arith, e, f.few_waiting))
              (omega (arith, e, total_one waits ts i there)))
          ∙ omega (arith, e, total_one waits ts i there)))
  ]

  pub pass_readers-Responds :
      (k : ℕ) (m : RwMutex)
      → Fine b m ts
      → reads before ≡ 0
      → writes before ≡ 0
      → k + waits before ≡ total waits ts + 1
      → Responds (pass_readers i (record m { writers_waiting = k }))
  unfolding pass_readers
  pass_readers-Responds k m f r0 x0 e = elim (Bool-cases (ltb 0 m.readers_active)) [
    | inl t ↦ rw t (
        writer_waits b i k m ts waits_for_readers there f r0 x0 refl refl refl e
          (λ h. absurd (omega arith)))
    | inr t ↦ rw t (pass_writer-Responds k m f r0 x0 e (ground (arith, f.readers)))
  ]

  pub lock_writer-Responds :
      (next : Phase) (m : RwMutex)
      → Fine b m ts
      → reads before ≡ 0
      → writes before ≡ 0
      → waits before ≡ 0
      → Responds (lock_writer i next m)
  unfolding lock_writer
  lock_writer-Responds next m f r0 x0 w0 = rw (disowned m f x0) (
      pass_readers-Responds (increment m.writers_waiting) m f r0 x0 (
        ap (λ u. u + waits before)
          (increment_fits m.writers_waiting (omega (arith, f.waiting, f.few_waiting)))
        ∙ omega (arith, f.waiting, w0)))

  module _ (m : RwMutex) (f : Fine b m ts) (d : ℕ) (at : before ≡ writing d) where
    r0 : reads before ≡ 0
    r0 = ap reads at

    w0 : waits before ≡ 0
    w0 = ap waits at

    t0 : through before ≡ 0
    t0 = ap through at

    x1 : writes before ≡ 1
    x1 = ap writes at

    counted : (0 < m.count) × (m.count ≤ b)
    counted = elim f.held [
      | inl h ↦ (h.5, h.6)
      | inr h ↦ absurd (omega (arith, total_one writes ts i there, h.1, x1))
    ]

    owned : owns i m ≡ true
    owned = (writes_owns b i m ts there f.held x1).2

    -- Read locks inside the write lock are not counted.
    pub nested_lock-Responds : (e : ℕ) → Responds (lock_reader i (writing e) m)
    unfolding lock_reader
    nested_lock-Responds e = rw owned (
        owner_stays b i m.count m ts (writing e) there f r0 w0 t0 x1 refl refl refl refl counted.0
          (omega (arith, counted.1)))

    pub nested_unlock-Responds : (e : ℕ) → Responds (unlock_reader i (writing e) m)
    unfolding unlock_reader
    nested_unlock-Responds e = rw owned (
        owner_stays b i m.count m ts (writing e) there f r0 w0 t0 x1 refl refl refl refl counted.0
          (omega (arith, counted.1)))

    pub relock-Responds : (e : ℕ) → Responds (lock_writer i (writing e) m)
    unfolding lock_writer
    relock-Responds e =
        let c = increment_fits m.count (omega (arith, counted.1)) in
        rw owned (
          owner_stays b i (increment m.count) m ts (writing e) there f r0 w0 t0 x1 refl refl refl
            refl (omega (arith, c)) (omega (arith, c, counted.1)))

    pub unlock_writer-Responds : (e : ℕ) → Responds (unlock_writer (writing e) m)
    unfolding unlock_writer
    unlock_writer-Responds e =
        let c = decrement_fits m.count (omega (arith, counted.1)) counted.0 in
        elim (Bool-cases (decrement m.count == 0)) [
          | inl t ↦ rw t (owner_leaves b i (decrement m.count) m ts there f r0 w0 t0 x1)
          | inr t ↦ rw t (
              owner_stays b i (decrement m.count) m ts (writing e) there f r0 w0 t0 x1 refl refl
                refl refl (ground arith) (omega (arith, c, counted.1)))
        ]
