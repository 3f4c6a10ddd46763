-- ===== src/Channel/BitStream/Waiting.antt =====
-- The row of bits that a BitReader has before it: libs/chan/bits.cc.
use obtools.Common.{
  ℕ, suc, ◌-◌, ◌/◌, ◌%◌, ◌^◌, ◌≤◌, ◌<◌, ◌≡◌, refl, sym, ap, ◌∙◌, inl, inr, List, [], ◌∷◌, ◌++◌,
  get_or, length, arith, Bool-cases, ◌==◌, true,
}
use native.Mathlib.Nat.{pow-le-pow_right}
use obtools.Channel.{Bytes, Outcome, returned, Reader}
use obtools.Channel.Reading.{read_byte}
use obtools.Channel.Streams.{Stream}
use obtools.Channel.Fields.{read_then}
use obtools.Channel.BitStream.{
  BitReader, push_bit, load, next_bit, read_bit, read_bits_loop, read_bits,
}
use obtools.Channel.BitStream.Bits.{
  bits, from_bits, bits_of, length-bits, from_bits-bits, from_bits-le,
}

module _ {S : Type 0} {r : Reader S} (stream : Stream r) where
  -- A byte of which at most eight bits wait.
  pub record BitValid (b : BitReader S) : Type 0 where
    pub few : b.bits_valid ≤ 8
    pub valid : stream.supply.Valid b.reader

  abbrev pub waiting : BitReader S → List ℕ
  waiting b = bits b.bits_valid b.current_byte ++ bits_of (stream.supply.rest b.reader)

  abbrev Loads : Outcome (BitReader S) (Unit {0}) → BitReader S → Type 0
  Loads out b =
      (b' : BitReader S) × (out ≡ returned tt b')
      × BitValid b'
      × (waiting b' ≡ waiting b)
      × (0 < b'.bits_valid)

  load_fresh :
      (bs : Bytes) (b : BitReader S)
      → stream.supply.rest b.reader ≡ bs
      → b.bits_valid ≡ 0
      → stream.supply.Valid b.reader
      → 0 < length (waiting b)
      → Loads (load r b) b
  unfolding load read_byte
  load_fresh [] b e z v h =
      let none_wait : length (waiting b) ≡ 0 = rw (z, e) refl in absurd (omega arith)
  load_fresh (c ∷ tl) b e z v h =
      let (s1, e1, v1, r1) =
        read_then stream 1 (λ got. get_or got 0 0) (c ∷ []) tl c b.reader v (omega arith) refl e
          refl in
      let t : (b.bits_valid == 0) ≡ true = ap (λ n. n == 0) z in
      let before : waiting b ≡ bits_of (c ∷ tl) =
        ap (λ n. bits n b.current_byte ++ bits_of (stream.supply.rest b.reader)) z ∙ ap bits_of e in
      (
        record { reader = s1; bits_valid = 8; current_byte = c },
        rw (t, e1) refl,
        record { few = omega arith; valid = v1 },
        ap (λ l. bits 8 c ++ bits_of l) r1 ∙ sym before,
        omega arith,
      )

  load_lem : (b : BitReader S) → BitValid b → 0 < length (waiting b) → Loads (load r b) b
  unfolding load
  load_lem b v h = elim (Bool-cases (b.bits_valid == 0)) [
    | inl t ↦ load_fresh (stream.supply.rest b.reader) b refl (ground arith) v.valid h
    | inr f ↦ (b, rw f refl, v, refl, ground arith)
  ]

  -- A bit of those that wait.
  abbrev pub Gives : {A : Type 0} → Outcome (BitReader S) A → A → List ℕ → Type 0
  Gives out a tl = (b' : BitReader S) × (out ≡ returned a b') × BitValid b' × (waiting b' ≡ tl)

  next_bit_lem :
      (n bit : ℕ) (tl : List ℕ) (b : BitReader S)
      → BitValid b
      → b.bits_valid ≡ suc n
      → waiting b ≡ bit ∷ tl
      → Gives (next_bit r b) bit tl
  unfolding next_bit
  next_bit_lem n bit tl b v z e =
      let k : b.bits_valid - 1 ≡ n = omega arith in
      let c : b.current_byte / 2 ^ n % 2
            ∷ (bits n b.current_byte ++ bits_of (stream.supply.rest b.reader))
          ≡ bit ∷ tl =
        ap (λ m. bits m b.current_byte ++ bits_of (stream.supply.rest b.reader)) (sym z) ∙ e in
      (
        record b { bits_valid = n },
        rw k (ap (λ a. returned a (record b { bits_valid = n })) cc),
        record { few = omega (arith, v.few); valid = v.valid },
        cc,
      )

  read_bits_loop_lem :
      (bs tl : List ℕ) (acc : ℕ) (b : BitReader S)
      → BitValid b
      → from_bits bs acc < 2 ^ 32
      → waiting b ≡ bs ++ tl
      → Gives (read_bits_loop r (length bs) acc b) (from_bits bs acc) tl
  unfolding read_bits_loop
  read_bits_loop_lem [] tl acc b v h e = (b, refl, v, e)
  read_bits_loop_lem (bit ∷ bs) tl acc b v h e =
      let (b1, e1, v1, w1, p1) = load_lem b v (omega (arith, ap length e)) in
      let (b2, e2, v2, w2) =
        next_bit_lem (b1.bits_valid - 1) bit (bs ++ tl) b1 v1 (omega arith) (w1 ∙ e) in
      let m : push_bit acc bit % 2 ^ 32 ≡ push_bit acc bit =
        omega (arith, from_bits-le bs (push_bit acc bit)) in
      let (b3, e3, v3, w3) = read_bits_loop_lem bs tl (push_bit acc bit) b2 v2 h w2 in
      (b3, rw (e1, e2, m, e3) refl, v3, w3)

  pub read_bits_lem :
      (n v : ℕ) (tl : List ℕ) (b : BitReader S)
      → BitValid b
      → n ≤ 32
      → v < 2 ^ n
      → waiting b ≡ bits n v ++ tl
      → Gives (read_bits r n b) v tl
  unfolding read_bits
  read_bits_lem n v tl b valid hn hv e =
      let num : from_bits (bits n v) 0 ≡ v = from_bits-bits n v 0 hv ∙ omega arith in
      let wide : 2 ^ n ≤ 2 ^ 32 = pow-le-pow_right (omega arith) hn in
      rw (num, length-bits n v) at
        (read_bits_loop_lem (bits n v) tl 0 b valid (omega (arith, num, wide)) e)

  pub read_bit_lem :
      (bit : ℕ) (tl : List ℕ) (b : BitReader S)
      → BitValid b
      → waiting b ≡ bit ∷ tl
      → Gives (read_bit r b) bit tl
  unfolding read_bit
  read_bit_lem bit tl b v e =
      let (b1, e1, v1, w1, p1) = load_lem b v (omega (arith, ap length e)) in
      let (b2, e2, v2, w2) = next_bit_lem (b1.bits_valid - 1) bit tl b1 v1 (omega arith) (w1 ∙ e) in
      (b2, rw (e1, e2) refl, v2, w2)
