-- ===== src/Channel/BitStream/Taken.antt =====
-- The row of bits that a BitWriter has taken: libs/chan/bits.cc.
use obtools.Common.{
  ℕ, zero, suc, ◌+◌, ◌-◌, ◌*◌, ◌/◌, ◌%◌, ◌^◌, ◌<◌, ◌≡◌, refl, sym, subst, ap, ◌∙◌, inl, inr, List,
  [], ◌∷◌, ◌++◌, append_assoc, append-nil, arith, Bool-cases, ◌==◌, replicate,
}
use native.Mathlib.Nat.{pow-suc}
use obtools.Channel.{Outcome, returned, Writer}
use obtools.Channel.Writing.{write_byte}
use obtools.Channel.Sinks.{Sink}
use obtools.Channel.BitStream.{BitWriter, push_bit, emit_full, accept_bit, write_bits, flush}
use obtools.Channel.BitStream.Bits.{
  bits, bits_of, bits_of-append, bits-push, bits-shift, shift-narrow,
}

module _ {S : Type 0} {w : Writer S} (sink : Sink w) where
  -- Fewer than eight bits wait, and there is room for `k` more.
  pub record BitRoom (k : ℕ) (b : BitWriter S) : Type 0 where
    pub few : b.bits_valid < 8
    pub narrow : b.current_byte < 2 ^ b.bits_valid
    pub room : sink.Room ((b.bits_valid + k) / 8) b.writer

  abbrev pub taken : BitWriter S → List ℕ
  taken b = bits_of (sink.written b.writer) ++ bits b.bits_valid b.current_byte

  abbrev pub Accepts : Outcome (BitWriter S) (Unit {0}) → List ℕ → ℕ → BitWriter S → Type 0
  Accepts out bs k b =
      (b' : BitWriter S) × (out ≡ returned tt b') × BitRoom k b' × (taken b' ≡ taken b ++ bs)

  accept_bit_lem :
      (bit k : ℕ) (b : BitWriter S)
      → bit < 2
      → BitRoom (suc k) b
      → Accepts (accept_bit w bit b) (bit ∷ []) k b
  unfolding accept_bit emit_full write_byte
  accept_bit_lem bit k b h v = elim (Bool-cases (b.bits_valid + 1 == 8)) [
    | inl t ↦
        (let n7 : b.bits_valid ≡ 7 = ground arith in
          let c = push_bit b.current_byte bit in
          let small : b.current_byte < 128 = subst (λ n. b.current_byte < 2 ^ n) n7 v.narrow in
          let m : c % 256 ≡ c = omega arith in
          let (s1, e1, r1, w1) =
            sink.writes (c ∷ []) (k / 8) b.writer
              (subst (λ n. sink.Room n b.writer) (omega (arith, n7)) v.room) in
          (
            record { writer = s1; bits_valid = 0; current_byte = 0 },
            rw (t, m, e1) refl,
            record {
              few = omega arith;
              narrow = omega arith;
              room = subst (λ n. sink.Room n s1) (omega arith) r1;
            },
            append-nil (bits_of (sink.written s1))
                ∙ ap bits_of w1
                ∙ bits_of-append (sink.written b.writer) (c ∷ [])
                ∙ ap (λ l. bits_of (sink.written b.writer) ++ l)
                    (append-nil (bits 8 c)
                      ∙ bits-push 7 b.current_byte bit h
                      ∙ ap (λ n. bits n b.current_byte ++ bit ∷ []) (sym n7))
                ∙ sym (
                    append_assoc (bits_of (sink.written b.writer))
                      (bits b.bits_valid b.current_byte) (bit ∷ [])),
          ))
    | inr f ↦
        (let n : b.bits_valid + 1 ≡ suc b.bits_valid = omega arith in
          (
            record b { bits_valid = b.bits_valid + 1; current_byte = push_bit b.current_byte bit },
            rw f refl,
            record {
              few = ground (arith, v.few);
              narrow = rw (n, pow-suc 2 b.bits_valid) (omega (arith, v.narrow));
              room = subst (λ n. sink.Room n b.writer) (omega arith) v.room;
            },
            rw n (
                ap (λ l. bits_of (sink.written b.writer) ++ l)
                  (bits-push b.bits_valid b.current_byte bit h)
                ∙ sym (
                    append_assoc (bits_of (sink.written b.writer))
                      (bits b.bits_valid b.current_byte) (bit ∷ []))),
          ))
  ]

  pub write_bits_lem :
      (n v k : ℕ) (b : BitWriter S)
      → BitRoom (n + k) b
      → Accepts (write_bits w n v b) (bits n v) k b
  unfolding write_bits
  write_bits_lem zero v k b h =
      (b, refl, subst (λ m. BitRoom m b) (omega arith) h, sym (append-nil (taken b)))
  write_bits_lem (suc n) v k b h =
      let (b1, e1, h1, t1) =
        accept_bit_lem (v / 2 ^ n % 2) (n + k) b (omega arith)
          (subst (λ m. BitRoom m b) (omega arith) h) in
      let (b2, e2, h2, t2) = write_bits_lem n v k b1 h1 in
      (
        b2,
        rw (e1, e2) refl,
        h2,
        rw (t2, t1) (append_assoc (taken b) (v / 2 ^ n % 2 ∷ []) (bits n v)),
      )

  -- The bits that fill the last byte.
  pub flush_lem :
      (b : BitWriter S)
      → BitRoom 7 b
      → (b' : BitWriter S) × (pad : ℕ) × (pad < 8)
        × (flush w b ≡ returned tt b')
        × (b'.bits_valid ≡ 0)
        × (bits_of (sink.written b'.writer) ≡ taken b ++ replicate pad 0)
  unfolding flush write_byte
  flush_lem b h = elim (Bool-cases (b.bits_valid == 0)) [
    | inl t ↦
        (let z : b.bits_valid ≡ 0 = ground arith in
          (
            b,
            0,
            omega arith,
            rw t refl,
            z,
            rw z (
                sym (
                  append-nil (bits_of (sink.written b.writer) ++ [])
                  ∙ append-nil (bits_of (sink.written b.writer)))),
          ))
    | inr f ↦
        (let p = 8 - b.bits_valid in
          let e : b.bits_valid + p ≡ 8 = omega (arith, h.few) in
          let c = b.current_byte * 2 ^ p in
          let small : c < 256 =
            subst (λ n. c < 2 ^ n) e (shift-narrow b.bits_valid p b.current_byte h.narrow) in
          let m : c % 256 ≡ c = omega arith in
          let pos : 0 < b.bits_valid = ground arith in
          let (s1, e1, r1, w1) =
            sink.writes (c ∷ []) 0 b.writer
              (subst (λ n. sink.Room n b.writer) (omega (arith, h.few)) h.room) in
          (
            record { writer = s1; bits_valid = 0; current_byte = 0 },
            p,
            omega arith,
            rw (f, m, e1) refl,
            refl,
            ap bits_of w1
                ∙ bits_of-append (sink.written b.writer) (c ∷ [])
                ∙ ap (λ l. bits_of (sink.written b.writer) ++ l)
                    (append-nil (bits 8 c)
                      ∙ ap (λ n. bits n c) (sym e)
                      ∙ bits-shift b.bits_valid p b.current_byte)
                ∙ sym (
                    append_assoc (bits_of (sink.written b.writer))
                      (bits b.bits_valid b.current_byte) (replicate p 0)),
          ))
  ]
