-- ===== src/Ring/Threads/Fifo.antt =====
-- First in, first out, whatever the interleaving of the two threads of libs/ring/ot-ring.h.
use obtools.Common.{
  ℕ, suc, ◌+◌, ◌-◌, ◌^◌, ◌<◌, ◌≡◌, refl, sym, ap, ◌∙◌, List, [], ◌∷◌, ◌++◌, get_or, get_or-set_self,
  get_or-set_ne, set, length-set, arith, false, ◌≢◌, ◌==◌, append_assoc, All, Bool-cases, inl, inr,
}
use obtools.Ring.{Buffer, IsValid, inc, make, size, used, window, contents}
use obtools.Ring.Window.{inc_lem, inc_range, inc-length, window-items, window_last, window-set}
use obtools.Ring.Queue.{contents-make, ahead_in, used-places, stepped, used-stepped, make-IsValid}
use obtools.Ring.Threads.{
  Threads, Putter, Getter, Turn, idle, tested, stored, loaded, read, putting, flushing, getting,
  begin_put, go_on, putting_step, getting_step, turn, run, NoFlush, PutterHolds, GetterHolds,
  IsFifo,
}

module _ {ℓ} {A : Type ℓ} (fresh : A) (b : Buffer A) (v : IsValid b) where
  room_iff : (inc b b.in_index == b.out_index) ≡ false → used b < size b
  unfolding used size
  room_iff h = ground (arith, v.in_range, v.out_range, v.small, inc_lem b b.in_index)

  -- The three writes to the shared state, and what each does to the queue.
  abbrev filled : A → Buffer A
  filled x = record b { items = set b.items b.in_index x }

  abbrev published : Buffer A
  published = record b { in_index = inc b b.in_index }

  filled-IsValid : (x : A) → IsValid (filled x)
  filled-IsValid x =
      ground (arith, v.in_range, v.out_range, v.small, length-set b.items b.in_index x)

  used-filled : (x : A) → used (filled x) ≡ used b
  unfolding used
  used-filled x = rw (length-set b.items b.in_index x)

  size-filled : (x : A) → size (filled x) ≡ size b
  unfolding size
  size-filled x = rw (length-set b.items b.in_index x)

  contents-filled : (x : A) → contents fresh (filled x) ≡ contents fresh b
  unfolding contents
  contents-filled x = rw (used-filled x) (
      window-set fresh x b b.in_index b.in_index (used b) b.out_index v.out_range v.in_range v.small
        (omega (arith, used-places fresh b v)))

  out-ne-in : 0 < used b → b.in_index ≢ b.out_index
  unfolding used
  out-ne-in h e = ground arith

  published-IsValid : IsValid published
  published-IsValid = ground (arith, v.in_range, v.out_range, v.small, inc_range b b.in_index)

  used-published : used b < size b → used published ≡ suc (used b)
  unfolding used size
  used-published h = ground (arith, v.in_range, v.out_range, v.small, inc_lem b b.in_index)

  contents-published :
      (x : A)
      → used b < size b
      → get_or b.items b.in_index fresh ≡ x
      → contents fresh published ≡ contents fresh b ++ x ∷ []
  unfolding contents
  contents-published x h e = rw (used-published h) (
      window-items fresh b published (suc (used b)) b.out_index refl
      ∙ window_last fresh b (used b) b.out_index v.out_range (unfold size in omega arith) v.small
      ∙ rw (ahead_in fresh b v, e))

  stepped-IsValid : IsValid (stepped fresh b v)
  stepped-IsValid = ground (arith, v.in_range, v.out_range, v.small, inc_range b b.out_index)

  window-stepped :
      (n : ℕ)
      → used b ≡ suc n
      → window fresh b (suc n) b.out_index
        ≡ get_or b.items b.out_index fresh ∷ contents fresh (stepped fresh b v)
  unfolding contents
  window-stepped n h =
      let e : used (stepped fresh b v) ≡ n = omega (arith, used-stepped fresh b v (omega arith)) in
      rw e (
        unfold window in
        ap (λ t. get_or b.items b.out_index fresh ∷ t)
          (sym (window-items fresh b (stepped fresh b v) n (inc b b.out_index) refl)))

  contents-stepped :
      (y : A)
      → 0 < used b
      → get_or b.items b.out_index fresh ≡ y
      → contents fresh b ≡ y ∷ contents fresh (stepped fresh b v)
  contents-stepped y h e =
      let p : used b ≡ suc (used b - 1) = omega arith in
      unfold contents in rw (p, ← e) (window-stepped (used b - 1) p)

module _ {ℓ} {A : Type ℓ} (fresh : A) (s : Threads A) (f : IsFifo fresh s) where
  begin_put-IsFifo : (x : A) → IsFifo fresh (begin_put x s)
  unfolding begin_put
  begin_put-IsFifo x = elim (Bool-cases (inc s.ring s.ring.in_index == s.ring.out_index)) [
    | inl t ↦ rw t f
    | inr t ↦ rw t (record {
      valid = f.valid;
      putter_holds = (refl, room_iff fresh s.ring f.valid t, tt);
      getter_holds = f.getter_holds;
      in_order = f.in_order;
    })
  ]

  getter-filled :
      (x : A) (g : Getter A)
      → GetterHolds s.ring fresh g
      → GetterHolds (filled fresh s.ring f.valid x) fresh g
  getter-filled x idle h = tt
  getter-filled x tested h = (rw (used-filled fresh s.ring f.valid x) h.0, tt)
  getter-filled x (read y) h = (
    rw (used-filled fresh s.ring f.valid x) h.0,
    get_or-set_ne s.ring.items s.ring.in_index s.ring.out_index x fresh
          (out-ne-in fresh s.ring f.valid h.0)
        ∙ h.1,
  )

  getter-published :
      (g : Getter A)
      → used s.ring < size s.ring
      → GetterHolds s.ring fresh g
      → GetterHolds (published fresh s.ring f.valid) fresh g
  getter-published idle r h = tt
  getter-published tested r h = (omega (arith, used-published fresh s.ring f.valid r), tt)
  getter-published (read y) r h = (omega (arith, used-published fresh s.ring f.valid r), h.1)

  go_on-IsFifo : (p : Putter A) → PutterHolds s.ring fresh p → IsFifo fresh (go_on p s)
  unfolding go_on
  go_on-IsFifo idle h = f
  go_on-IsFifo (tested x n) h = record {
    valid = filled-IsValid fresh s.ring f.valid x;
    putter_holds = (
      h.0
          ∙ sym (
              inc-length s.ring (filled fresh s.ring f.valid x) s.ring.in_index
                (length-set s.ring.items s.ring.in_index x)),
      rw (used-filled fresh s.ring f.valid x, size-filled fresh s.ring f.valid x) h.1,
      get_or-set_self s.ring.items s.ring.in_index x fresh f.valid.in_range,
    );
    getter_holds = getter-filled x s.getter f.getter_holds;
    in_order = rw (contents-filled fresh s.ring f.valid x) f.in_order;
  }
  go_on-IsFifo (stored x n) h = rw h.0 (record {
    valid = published-IsValid fresh s.ring f.valid;
    putter_holds = tt;
    getter_holds = getter-published s.getter h.1 f.getter_holds;
    in_order =
        rw (contents-published fresh s.ring f.valid x h.1 h.2, f.in_order) (append_assoc s.got _ _);
  })
  go_on-IsFifo (loaded o) h = absurd h.0

  putter-stepped :
      (p : Putter A)
      → 0 < used s.ring
      → PutterHolds s.ring fresh p
      → PutterHolds (stepped fresh s.ring f.valid) fresh p
  unfolding inc
  putter-stepped idle u h = tt
  putter-stepped (tested x n) u h =
      (h.0, unfold size in omega (arith, used-stepped fresh s.ring f.valid (omega arith)), tt)
  putter-stepped (stored x n) u h =
      (h.0, unfold size in omega (arith, used-stepped fresh s.ring f.valid (omega arith)), h.2)
  putter-stepped (loaded o) u h = h

  getting-IsFifo :
      (g : Getter A) → GetterHolds s.ring fresh g → IsFifo fresh (getting_step fresh g s)
  unfolding getting_step
  getting-IsFifo idle h = elim (Bool-cases (s.ring.out_index == s.ring.in_index)) [
    | inl t ↦ rw t f
    | inr t ↦ rw t (record {
      valid = f.valid;
      putter_holds = f.putter_holds;
      getter_holds = (unfold used in ground arith, tt);
      in_order = f.in_order;
    })
  ]
  getting-IsFifo tested h = record {
    valid = f.valid;
    putter_holds = f.putter_holds;
    getter_holds = (h.0, refl);
    in_order = f.in_order;
  }
  getting-IsFifo (read y) h = record {
    valid = stepped-IsValid fresh s.ring f.valid;
    putter_holds = putter-stepped s.putter h.0 f.putter_holds;
    getter_holds = tt;
    in_order =
        f.in_order
        ∙ rw (contents-stepped fresh s.ring f.valid y h.0 h.1) (sym (append_assoc s.got _ _));
  }

  putting-IsFifo :
      (x : A) (p : Putter A) → PutterHolds s.ring fresh p → IsFifo fresh (putting_step x p s)
  unfolding putting_step
  putting-IsFifo x idle h = begin_put-IsFifo x
  putting-IsFifo x (tested y n) h = go_on-IsFifo (tested y n) h
  putting-IsFifo x (stored y n) h = go_on-IsFifo (stored y n) h
  putting-IsFifo x (loaded o) h = absurd h.0

  turn-IsFifo : (t : Turn A) → NoFlush t → IsFifo fresh (turn fresh t s)
  unfolding turn
  turn-IsFifo (putting x) h = putting-IsFifo x s.putter f.putter_holds
  turn-IsFifo flushing h = absurd h
  turn-IsFifo getting h = getting-IsFifo s.getter f.getter_holds

module _ {ℓ} {A : Type ℓ} (fresh : A) where
  -- Both threads outside of a call, on a new buffer.
  abbrev pub start : ℕ → Threads A
  start n = record { ring = make fresh n; putter = idle; getter = idle; sent = []; got = [] }

  start-IsFifo : (n : ℕ) → n + 1 < 2 ^ 31 → IsFifo fresh (start n)
  start-IsFifo n h = record {
    valid = make-IsValid fresh n h;
    putter_holds = tt;
    getter_holds = tt;
    in_order = sym (contents-make fresh n);
  }

  run-IsFifo :
      (ts : List (Turn A)) (s : Threads A)
      → All NoFlush ts
      → IsFifo fresh s
      → IsFifo fresh (run fresh ts s)
  unfolding run
  run-IsFifo [] s h f = f
  run-IsFifo (t ∷ ts) s h f = run-IsFifo ts (turn fresh t s) h.1 (turn-IsFifo fresh s f t h.0)

  -- One thread puts and another gets on a new buffer for `n` items whose size fits an `int`. After
  -- any interleaving of their accesses, in which nobody flushes, the items put so far are those got
  -- so far, in the same order, followed by those that wait, and the state of the buffer is valid.
  pub run_fifo :
      (n : ℕ) (ts : List (Turn A))
      → n + 1 < 2 ^ 31
      → All NoFlush ts
      → (let s = run fresh ts (start n) in
          (s.sent ≡ s.got ++ contents fresh s.ring) × IsValid s.ring)
  run_fifo n ts h k = let f = run-IsFifo ts (start n) k (start-IsFifo n h) in (f.in_order, f.valid)
