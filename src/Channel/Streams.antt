-- ===== src/Channel/Streams.antt =====
-- The contract of a Reader, libs/chan/ot-chan.h, that its other functions rely on, and the calls of
-- libs/chan/reader.cc that read or skip a number of bytes.
use obtools.Common.{
  ℕ, zero, suc, ◌+◌, ◌-◌, ◌*◌, ◌≤◌, ◌<◌, ◌≡◌, refl, ap, ◌∙◌, inl, inr, [], none, some, true, false,
  length, length-drop, take, ltb, ltb→lt, ◌==◌, Bool-cases, if◌then◌else◌, arith,
}
use obtools.Channel.{Bytes, eof, eof_in_string, Action, Outcome, returned, thrown, Reader}
use obtools.Channel.Reading.{
  buffer_size, all_wanted, within_buffer, base_try_read, base_try_read_string, read, skip_to_eof,
}
use obtools.Channel.Supply.{Supply, Hands, empty, try_loop-exact, try_loop-short, try_loop-none}

-- A read of `e` at the end.
abbrev pub Ends :
    {S A : Type 0} {basic_read : ℕ → Action S Bytes}
    → Supply basic_read
    → Outcome S A
    → (S → Outcome S A)
    → Type 0
Ends {S} supply out ending = (s' : S) × (out ≡ ending s') × supply.Valid s' × (supply.rest s' ≡ [])

pub record Stream {S : Type 0} (r : Reader S) : Type 1 where
  pub supply : Supply r.basic_read
  pub exact :
      (count : ℕ) (s : S)
      → supply.Valid s
      → 0 < count
      → count ≤ length (supply.rest s)
      → Hands supply (r.try_read count s) (some (take count (supply.rest s))) s count
  pub short :
      (count : ℕ) (s : S)
      → supply.Valid s
      → length (supply.rest s) < count
      → 0 < length (supply.rest s)
      → Ends supply (r.try_read count s) (thrown eof)
  pub finished :
      (count : ℕ) (s : S)
      → supply.Valid s
      → 0 < count
      → supply.rest s ≡ []
      → Ends supply (r.try_read count s) (returned none)

module _ {S : Type 0} {basic_read : ℕ → Action S Bytes} (supply : Supply basic_read) where
  asks_all : (n : ℕ) → 0 < n → (0 < all_wanted n) × (all_wanted n ≤ n)
  asks_all n h = (h, omega arith)

  asks_buffer : (n : ℕ) → 0 < n → (0 < within_buffer n) × (within_buffer n ≤ n)
  asks_buffer n h = (omega arith, omega arith)

  pub base_try_read-exact :
      (count : ℕ) (s : S)
      → supply.Valid s
      → count ≤ length (supply.rest s)
      → Hands supply (base_try_read basic_read count s) (some (take count (supply.rest s))) s count
  unfolding base_try_read
  base_try_read-exact count s v h =
      let k : count - 0 ≡ count = omega arith in
      rw k at (
        try_loop-exact supply all_wanted eof asks_all count count 0 [] s v (omega arith)
          (omega arith))

  pub base_try_read-short :
      (count : ℕ) (s : S)
      → supply.Valid s
      → length (supply.rest s) < count
      → 0 < length (supply.rest s)
      → Ends supply (base_try_read basic_read count s) (thrown eof)
  unfolding base_try_read
  base_try_read-short count s v h pos =
      try_loop-short supply all_wanted eof asks_all count count 0 [] s v (omega arith) (omega arith)
        (omega arith)

  pub base_try_read-finished :
      (count : ℕ) (s : S)
      → supply.Valid s
      → 0 < count
      → supply.rest s ≡ []
      → Ends supply (base_try_read basic_read count s) (returned none)
  unfolding base_try_read
  base_try_read-finished zero s v h nil = absurd (omega arith)
  base_try_read-finished (suc count) s v h nil =
      try_loop-none supply all_wanted eof asks_all count (suc count) [] s v h nil

  -- The same bytes in pieces of a buffer.
  pub base_try_read_string-exact :
      (count : ℕ) (s : S)
      → supply.Valid s
      → count ≤ length (supply.rest s)
      → Hands supply
          (base_try_read_string basic_read count s)
          (some (take count (supply.rest s)))
          s
          count
  unfolding base_try_read_string
  base_try_read_string-exact count s v h =
      let k : count - 0 ≡ count = omega arith in
      rw k at (
        try_loop-exact supply within_buffer eof_in_string asks_buffer count count 0 [] s v
          (omega arith) (omega arith))

suc-==-zero : (k : ℕ) → (suc k == 0) ≡ false
suc-==-zero k = ground arith

module _ {S : Type 0} {r : Reader S} (stream : Stream r) where
  pub read-exact :
      (count : ℕ) (s : S)
      → stream.supply.Valid s
      → 0 < count
      → count ≤ length (stream.supply.rest s)
      → Hands stream.supply (read r count s) (take count (stream.supply.rest s)) s count
  unfolding read
  read-exact count s v pos h =
      let (s1, e1, v1, r1) = stream.exact count s v pos h in (s1, rw e1 refl, v1, r1)

  -- A read past the end throws, and the bytes before the end are gone.
  pub read-short :
      (count : ℕ) (s : S)
      → stream.supply.Valid s
      → length (stream.supply.rest s) < count
      → Ends stream.supply (read r count s) (thrown eof)
  unfolding read
  read-short count s v h = elim (Bool-cases (ltb 0 (length (stream.supply.rest s)))) [
    | inl p ↦
        (let (s1, e1, v1, r1) = stream.short count s v h (ltb→lt 0 _ p) in (s1, rw e1 refl, v1, r1))
    | inr p ↦
        (let l0 : length (stream.supply.rest s) ≡ 0 = ground arith in
          let (s1, e1, v1, r1) =
            stream.finished count s v (omega arith) (empty (stream.supply.rest s) l0) in
          (s1, rw e1 refl, v1, r1))
  ]

  -- Where `q` whole buffers and `k` bytes are left, skip_to_eof comes to the end within `q + 1` turns:
  -- it returns if `k` is 0, and throws the exception for the end of the data if it is not.
  pub skip_to_eof_lem :
      (fuel q k : ℕ) (s : S)
      → stream.supply.Valid s
      → length (stream.supply.rest s) ≡ q * buffer_size + k
      → k < buffer_size
      → q < fuel
      → Ends stream.supply
          (skip_to_eof r fuel s)
          (λ s'. if k == 0 then returned true s' else thrown eof s')
  unfolding skip_to_eof
  skip_to_eof_lem zero q k s v l hk hq = absurd (omega arith)
  skip_to_eof_lem (suc fuel) zero zero s v l hk hq =
      let (s1, e1, v1, r1) =
        stream.finished buffer_size s v (omega arith)
          (empty (stream.supply.rest s) (omega arith)) in
      (s1, rw e1 refl, v1, r1)
  skip_to_eof_lem (suc fuel) zero (suc k) s v l hk hq =
      let (s1, e1, v1, r1) = stream.short buffer_size s v (omega arith) (omega arith) in
      (s1, rw (e1, suc-==-zero k) refl, v1, r1)
  skip_to_eof_lem (suc fuel) (suc q) k s v l hk hq =
      let (s1, e1, v1, r1) = stream.exact buffer_size s v (omega arith) (omega arith) in
      let l1 : length (stream.supply.rest s1) ≡ q * buffer_size + k =
        ap length r1 ∙ length-drop buffer_size (stream.supply.rest s) ∙ omega arith in
      let (s2, e2, v2, r2) = skip_to_eof_lem fuel q k s1 v1 l1 hk (omega arith) in
      (s2, rw e1 e2, v2, r2)
