-- ===== src/Json/Faults.antt =====
-- Values that do not survive the encoder or the decoder of libs/json: cbor-writer.cc and
-- cbor-reader.cc.
use obtools.Common.{
  ℕ, suc, ◌-◌, ◌^◌, ◌≤◌, ◌<◌, ◌≡◌, refl, subst, ap, [], ◌++◌, some, length, sub64, sub64_fits,
  arith,
}
use obtools.Channel.{Bytes, eof, returned, thrown, Reader, Writer}
use obtools.Channel.Reading.{read_byte}
use obtools.Channel.Writing.{write_byte}
use obtools.Channel.Streams.{Stream, read-short}
use obtools.Channel.Sinks.{Sink}
use obtools.Channel.Fields.{Takes}
use obtools.Json.{integer, number, array, value, no_values}
use obtools.Json.CborWriter.{encode, write_int}
use obtools.Json.CborReader.{decode}
use obtools.Json.Form.{head, first_byte_major}
use obtools.Json.Decoding.{head_lem}

-- A CBOR integer below -2 ^ 63 is decoded as an integer that is not negative, since its int64_t has
-- no sign bit: the reader neither refuses it nor saturates.
pub decode_loses_sign :
    {S : Type 0} {r : Reader S} (stream : Stream r) (i fuel : ℕ) (tl : Bytes) (s : S)
    → 2 ^ 63 ≤ i
    → i < 2 ^ 64
    → stream.supply.Valid s
    → stream.supply.rest s ≡ head 1 i ++ tl
    → Takes stream (decode r (suc fuel) s) (some (integer (2 ^ 64 - 1 - i))) tl
      × (2 ^ 64 - 1 - i < 2 ^ 63)
unfolding decode
decode_loses_sign stream i fuel tl s low h v e =
    let (s1, s2, e1, e2, v2, r2) = head_lem stream 1 i tl s (omega arith) h v e in
    let back : sub64 (2 ^ 64 - 1) i ≡ 2 ^ 64 - 1 - i =
      sub64_fits (2 ^ 64 - 1) i (omega arith) (omega arith) in
    ((s2, rw (e1, first_byte_major 1 i, e2, back) refl, v2, r2), omega arith)

-- An array of one floating-point number is written as the head of an array alone, and the decoder,
-- where nothing follows, throws at the end of the data.
pub number_lost :
    {S T : Type 0} {w : Writer S} {r : Reader T} (sink : Sink w) (stream : Stream r) (f fuel : ℕ)
    (s : S) (t : T)
    → sink.Room 1 s
    → stream.supply.Valid t
    → stream.supply.rest t ≡ head 4 1
    → (s' : S) × (t' : T) × (encode w (array (value (number f) no_values)) s ≡ returned tt s')
      × (sink.written s' ≡ sink.written s ++ head 4 1)
      × (decode r (suc (suc (suc fuel))) t ≡ thrown eof t')
unfolding encode decode write_int write_byte read_byte
number_lost {r} sink stream f fuel s t room v e =
    let (s1, e1, v1, w1) =
      sink.writes (head 4 1) 0 s (subst (λ k. sink.Room k s) (omega arith) room) in
    let (t1, t2, f1, f2, u2, r2) = head_lem stream 4 1 [] t (omega arith) (omega arith) v e in
    let (t3, f3, u3, r3) = read-short stream 1 t2 u2 (omega (arith, ap length r2)) in
    (s1, t3, rw e1 refl, w1, rw (f1, f2, f3) refl)
