-- ===== src/Channel/BitStream.antt =====
-- Streams of bits on a reader or a writer: libs/chan/bits.cc.
pub mod Bits
pub mod Taken
pub mod Waiting
pub mod RoundTrip
pub mod Golomb
use obtools.Common.{
  ℕ, zero, suc, ◌+◌, ◌-◌, ◌*◌, ◌/◌, ◌%◌, ◌^◌, Option, none, some, Bool, true, false, if◌then◌else◌,
  ◌==◌,
}
use obtools.Channel.{Action, Outcome, returned, thrown, ◌>>=◌, ◌>>◌, return, Reader, Writer}
use obtools.Channel.Reading.{read_byte}
use obtools.Channel.Writing.{write_byte}

pub record BitReader (S : Type 0) : Type 0 where
  pub reader : S
  pub bits_valid : ℕ
  pub current_byte : ℕ

pub record BitWriter (S : Type 0) : Type 0 where
  pub writer : S
  pub bits_valid : ℕ
  pub current_byte : ℕ

-- `|=` of a bit to a number whose last bit is 0.
abbrev pub push_bit : ℕ → ℕ → ℕ
push_bit byte bit = byte * 2 + bit

module _ {S : Type 0} (r : Reader S) where
  abbrev pub loaded : BitReader S → Outcome S ℕ → Outcome (BitReader S) (Unit {0})
  loaded b (returned byte s) =
      returned tt (record { reader = s; bits_valid = 8; current_byte = byte })
  loaded b (thrown e s) = thrown e (record b { reader = s })

  unfoldable pub load : Action (BitReader S) (Unit {0})
  load b = if b.bits_valid == 0 then loaded b (read_byte r b.reader) else returned tt b

  unfoldable pub next_bit : Action (BitReader S) ℕ
  next_bit b =
      let n = b.bits_valid - 1 in
      returned (b.current_byte / 2 ^ n % 2) (record b { bits_valid = n })

  unfoldable pub read_bit : Action (BitReader S) ℕ
  read_bit = load >> next_bit

  unfoldable pub read_bits_loop : ℕ → ℕ → Action (BitReader S) ℕ
  read_bits_loop zero bits = return bits
  read_bits_loop (suc n) bits = do
    bit ← load >> next_bit
    read_bits_loop n (push_bit bits bit % 2 ^ 32)

  unfoldable pub read_bits : ℕ → Action (BitReader S) ℕ
  read_bits n = read_bits_loop n 0

  -- The leading zeros of an Exp-Golomb code. `none` is a run that is not over after `fuel` turns.
  unfoldable pub leading_zeros : ℕ → ℕ → Action (BitReader S) (Option ℕ)
  leading_zeros zero len = return none
  leading_zeros (suc fuel) len = do
    bit ← read_bit
    if bit == 0 then leading_zeros fuel (len + 1) else return (some len)

  -- Up to 31 bits, so that no shift leaves the range of int.
  unfoldable pub golomb_bits : ℕ → ℕ → Action (BitReader S) ℕ
  golomb_bits zero value = return value
  golomb_bits (suc i) value = do bit ← read_bit; golomb_bits i ((value + bit * 2 ^ i) % 2 ^ 32)

  abbrev pub golomb_value : Option ℕ → Action (BitReader S) (Option ℕ)
  golomb_value none = return none
  golomb_value (some len) = do
    value ← golomb_bits len 0
    return (some ((value + (2 ^ len - 1)) % 2 ^ 32))

  unfoldable pub read_exp_golomb : ℕ → Action (BitReader S) (Option ℕ)
  read_exp_golomb fuel = leading_zeros fuel 0 >>= golomb_value

module _ {S : Type 0} (w : Writer S) where
  abbrev pub stored : BitWriter S → Outcome S (Unit {0}) → Outcome (BitWriter S) (Unit {0})
  stored b (returned u s) = returned tt (record { writer = s; bits_valid = 0; current_byte = 0 })
  stored b (thrown e s) = thrown e (record b { writer = s })

  -- The writer has bits_valid and current_byte changed when write_byte throws.
  unfoldable pub emit_full : Action (BitWriter S) (Unit {0})
  emit_full b =
      if b.bits_valid == 8
      then stored b (write_byte w (b.current_byte % 256) b.writer)
      else returned tt b

  unfoldable pub accept_bit : ℕ → Action (BitWriter S) (Unit {0})
  accept_bit bit b =
      emit_full
        (record b { bits_valid = b.bits_valid + 1; current_byte = push_bit b.current_byte bit })

  unfoldable pub write_bit : ℕ → Action (BitWriter S) (Unit {0})
  write_bit bit = accept_bit (bit % 2)

  unfoldable pub write_bits : ℕ → ℕ → Action (BitWriter S) (Unit {0})
  write_bits zero bits = return tt
  write_bits (suc n) bits = accept_bit (bits / 2 ^ n % 2) >> write_bits n bits

  unfoldable pub flush : Action (BitWriter S) (Unit {0})
  flush b =
      if b.bits_valid == 0
      then returned tt b
      else (let byte = b.current_byte * 2 ^ (8 - b.bits_valid) in
          stored (record b { current_byte = byte }) (write_byte w (byte % 256) b.writer))
