-- ===== src/Channel/Writing.antt =====
-- The generic writer: libs/chan/writer.cc.
use obtools.Common.{
  ℕ, zero, suc, ◌-◌, ◌*◌, ◌/◌, ◌%◌, ◌^◌, [], ◌∷◌, min, length, take, replicate, ltb, if◌then◌else◌,
  add64, sub64,
}
use obtools.Channel.{Bytes, Action, ◌>>◌, return, Writer}

-- static_cast<int> of a 64-bit value, converted back to size_t.
unfoldable pub through_int : ℕ → ℕ
through_int n = let w = n % 2 ^ 32 in if ltb w (2 ^ 31) then w else sub64 w (2 ^ 32)

module _ {S : Type 0} (w : Writer S) where
  -- The forms of write for a string, a vector and a C string without its terminator.
  unfoldable pub write : Bytes → Action S (Unit {0})
  write bs = w.basic_write bs

  unfoldable pub pad_to : ℕ → ℕ → Action S (Unit {0})
  pad_to zero pad = return tt
  pad_to (suc n) pad = w.basic_write (pad ∷ []) >> pad_to n pad

  unfoldable pub write_fixed : Bytes → ℕ → ℕ → Action S (Unit {0})
  write_fixed bs size pad =
      let len = min size (length bs) in w.basic_write (take len bs) >> pad_to (size - len) pad

  unfoldable pub write_byte : ℕ → Action S (Unit {0})
  write_byte b = w.basic_write (b ∷ [])

  unfoldable pub write_nbo_16 : ℕ → Action S (Unit {0})
  write_nbo_16 i = w.basic_write (i / 2 ^ 8 % 256 ∷ i % 256 ∷ [])

  unfoldable pub write_nbo_24 : ℕ → Action S (Unit {0})
  write_nbo_24 i = w.basic_write (i / 2 ^ 16 % 256 ∷ i / 2 ^ 8 % 256 ∷ i % 256 ∷ [])

  unfoldable pub write_nbo_32 : ℕ → Action S (Unit {0})
  write_nbo_32 i =
      w.basic_write (i / 2 ^ 24 % 256 ∷ i / 2 ^ 16 % 256 ∷ i / 2 ^ 8 % 256 ∷ i % 256 ∷ [])

  unfoldable pub write_nbo_64 : ℕ → Action S (Unit {0})
  write_nbo_64 i = write_nbo_32 (i / 2 ^ 32 % 2 ^ 32) >> write_nbo_32 (i % 2 ^ 32)

  unfoldable pub write_le_16 : ℕ → Action S (Unit {0})
  write_le_16 i = w.basic_write (i % 256 ∷ i / 2 ^ 8 % 256 ∷ [])

  unfoldable pub write_le_24 : ℕ → Action S (Unit {0})
  write_le_24 i = w.basic_write (i % 256 ∷ i / 2 ^ 8 % 256 ∷ i / 2 ^ 16 % 256 ∷ [])

  unfoldable pub write_le_32 : ℕ → Action S (Unit {0})
  write_le_32 i =
      w.basic_write (i % 256 ∷ i / 2 ^ 8 % 256 ∷ i / 2 ^ 16 % 256 ∷ i / 2 ^ 24 % 256 ∷ [])

  unfoldable pub write_le_64 : ℕ → Action S (Unit {0})
  write_le_64 i = write_le_32 (i % 2 ^ 32) >> write_le_32 (i / 2 ^ 32 % 2 ^ 32)

  -- Writer::skip, where a subclass does not override it: each turn writes a byte at least.
  unfoldable pub skip_loop : ℕ → ℕ → Action S (Unit {0})
  skip_loop zero n = return tt
  skip_loop (suc fuel) n =
      if ltb 0 n
      then (let i = min n 256 in w.basic_write (replicate i 0) >> skip_loop fuel (n - i))
      else return tt

  unfoldable pub base_skip : ℕ → Action S (Unit {0})
  base_skip n = skip_loop n n

  unfoldable pub align : ℕ → Action S (Unit {0})
  align n s =
      w.skip (through_int (sub64 (n * (sub64 (add64 (w.offset s) n) 1 / n) % 2 ^ 64) (w.offset s)))
        s
