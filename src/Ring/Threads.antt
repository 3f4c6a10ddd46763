-- ===== src/Ring/Threads.antt =====
-- libs/ring/ot-ring.h between two threads, one that puts and one that gets, at the grain of single
-- reads and writes of the shared indices and items. A schedule lists whose turn it is.
-- C++'s `atomic` is sequentially consistent by default, so the accesses interleave.
pub mod Fifo
pub mod Race
use obtools.Common.{ℕ, zero, suc, ◌<◌, ◌≡◌, List, [], ◌∷◌, ◌++◌, get_or, set, if◌then◌else◌, ◌==◌}
use obtools.Ring.{Buffer, IsValid, inc, size, used, contents}

-- Where the putting thread stands: outside of a call; in `put` after the test; in `put` after the
-- write of the item; in `flush_from_put` after `out_index.load()`.
pub data Putter {ℓ} (A : Type ℓ) : Type ℓ where
  idle : Putter A
  tested : A → ℕ → Putter A
  stored : A → ℕ → Putter A
  loaded : ℕ → Putter A

-- Where the getting thread stands: outside; in `get` after the test; after the read of the item.
pub data Getter {ℓ} (A : Type ℓ) : Type ℓ where
  idle : Getter A
  tested : Getter A
  read : A → Getter A

-- `sent` and `got` record the items of the completed `put` and `get` calls, oldest first.
pub record Threads {ℓ} (A : Type ℓ) : Type ℓ where
  pub ring : Buffer A
  pub putter : Putter A
  pub getter : Getter A
  pub sent : List A
  pub got : List A

-- Whose turn it is. The putting thread begins `put x` or `flush_from_put` if it is outside of a
-- call, and else goes on with its call; the getting thread begins or goes on with `get`.
pub data Turn {ℓ} (A : Type ℓ) : Type ℓ where
  putting : A → Turn A
  flushing : Turn A
  getting : Turn A

module _ {ℓ} {A : Type ℓ} where
  begin_put : A → Threads A → Threads A
  begin_put x s =
      let next_in_index = inc s.ring s.ring.in_index in
      if next_in_index == s.ring.out_index then s else record s { putter = tested x next_in_index }

  go_on : Putter A → Threads A → Threads A
  go_on idle s = s
  go_on (tested x n) s = record s {
    ring = record s.ring { items = set s.ring.items s.ring.in_index x };
    putter = stored x n;
  }
  go_on (stored x n) s = record s {
    ring = record s.ring { in_index = n };
    putter = idle;
    sent = s.sent ++ x ∷ [];
  }
  go_on (loaded o) s = record s { ring = record s.ring { in_index = o }; putter = idle }

  putting_step : A → Putter A → Threads A → Threads A
  unfolding begin_put go_on
  putting_step x idle s = begin_put x s
  putting_step x p s = go_on p s

  flushing_step : Putter A → Threads A → Threads A
  unfolding go_on
  flushing_step idle s = record s { putter = loaded s.ring.out_index }
  flushing_step p s = go_on p s

  getting_step : A → Getter A → Threads A → Threads A
  getting_step fresh idle s =
      if s.ring.out_index == s.ring.in_index then s else record s { getter = tested }
  getting_step fresh tested s = record s {
    getter = read (get_or s.ring.items s.ring.out_index fresh);
  }
  getting_step fresh (read y) s = record s {
    ring = record s.ring { out_index = inc s.ring s.ring.out_index };
    getter = idle;
    got = s.got ++ y ∷ [];
  }

  unfoldable pub turn : A → Turn A → Threads A → Threads A
  unfolding putting_step flushing_step getting_step
  turn fresh (putting x) s = putting_step x s.putter s
  turn fresh flushing s = flushing_step s.putter s
  turn fresh getting s = getting_step fresh s.getter s

  unfoldable pub run : A → List (Turn A) → Threads A → Threads A
  run fresh [] s = s
  run fresh (t ∷ ts) s = run fresh ts (turn fresh t s)

  abbrev pub NoFlush : Turn A → Type 0
  NoFlush flushing = ⊥
  NoFlush _ = Unit {0}

  -- What holds of the shared state at each place of the two threads.
  abbrev PutterHolds : Buffer A → A → Putter A → Type ℓ
  PutterHolds b fresh idle = Unit
  PutterHolds b fresh (tested x n) = (n ≡ inc b b.in_index) × (used b < size b) × Unit {ℓ}
  PutterHolds b fresh (stored x n) =
      (n ≡ inc b b.in_index) × (used b < size b) × (get_or b.items b.in_index fresh ≡ x)
  PutterHolds b fresh (loaded o) = ⊥ × Unit {ℓ}

  abbrev GetterHolds : Buffer A → A → Getter A → Type ℓ
  GetterHolds b fresh idle = Unit
  GetterHolds b fresh tested = (0 < used b) × Unit {ℓ}
  GetterHolds b fresh (read y) = (0 < used b) × (get_or b.items b.out_index fresh ≡ y)

  pub record IsFifo (fresh : A) (s : Threads A) : Type ℓ where
    pub valid : IsValid s.ring
    pub putter_holds : PutterHolds s.ring fresh s.putter
    pub getter_holds : GetterHolds s.ring fresh s.getter
    pub in_order : s.sent ≡ s.got ++ contents fresh s.ring
