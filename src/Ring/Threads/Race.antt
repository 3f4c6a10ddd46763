-- ===== src/Ring/Threads/Race.antt =====
-- `flush_from_put` of libs/ring/ot-ring.h beside a `get` of the other thread.
use obtools.Common.{◌<◌, ◌≡◌, List, [], ◌∷◌, arith, false, ◌==◌}
use obtools.Ring.{Buffer, IsValid, inc, size, used}
use obtools.Ring.Window.{inc_lem}
use obtools.Ring.Threads.{Threads, Turn, Putter, Getter, flushing, getting, run, turn}

module _ {ℓ} {A : Type ℓ} (fresh : A) (b : Buffer A) (sent got : List A) where
  -- Both threads stand outside of a call.
  abbrev pub outside : Threads A
  outside = record { ring = b; putter = Putter.idle; getter = Getter.idle; sent = sent; got = got }

  -- The putting thread begins a flush, the other completes one `get`, and the flush ends.
  abbrev pub get_in_flush : List (Turn A)
  get_in_flush = flushing ∷ getting ∷ getting ∷ getting ∷ flushing ∷ []

  waiting : IsValid b → 0 < used b → (b.out_index == b.in_index) ≡ false
  unfolding used
  waiting v h = ground (arith, v.in_range, v.out_range)

  used_behind :
      IsValid b → used (record b { in_index = b.out_index; out_index = inc b b.out_index }) ≡ size b
  unfolding used size
  used_behind v = ground (arith, v.in_range, v.out_range, v.small, inc_lem b b.out_index)

  used_flushed : used (record b { in_index = b.out_index }) ≡ 0
  unfolding used
  used_flushed = ground arith

  -- On a buffer in a valid state with an item in it, a flush by the putting thread that is not
  -- interrupted leaves no item; a flush between whose two accesses the other thread completes a
  -- `get` leaves the buffer full, with as many stale items as it can hold.
  pub flush_race :
      IsValid b
      → 0 < used b
      → (used (run fresh (flushing ∷ flushing ∷ []) outside).ring ≡ 0)
        × (used (run fresh get_in_flush outside).ring ≡ size b)
  unfolding run turn
  flush_race v h = (used_flushed, rw (waiting v h) (used_behind v))
