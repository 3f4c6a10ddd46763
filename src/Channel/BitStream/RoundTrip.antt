-- ===== src/Channel/BitStream/RoundTrip.antt =====
-- Rows of bits through a BitWriter and a BitReader: libs/chan/bits.cc.
use obtools.Common.{
  ℕ, ◌+◌, ◌*◌, ◌/◌, ◌^◌, ◌≤◌, ◌<◌, ◌≡◌, refl, sym, subst, ap, ◌∙◌, List, [], ◌∷◌, ◌++◌,
  append_assoc, append-nil, All, length, length-append, length-replicate, replicate, arith,
}
use obtools.Channel.{Bytes, Action, returned, ◌>>=◌, ◌>>◌, return, Reader, Writer}
use obtools.Channel.Sinks.{Sink}
use obtools.Channel.Streams.{Stream}
use obtools.Channel.BitStream.{BitReader, BitWriter, read_bits, write_bits, flush}
use obtools.Channel.BitStream.Bits.{bits, bits_of, length-bits, length-bits_of}
use obtools.Channel.BitStream.Taken.{BitRoom, taken, Accepts, write_bits_lem, flush_lem}
use obtools.Channel.BitStream.Waiting.{BitValid, waiting, Gives, read_bits_lem}

-- A width and a number.
abbrev pub Narrow : ℕ × ℕ → Type 0
Narrow (n, v) = (n ≤ 32) × (v < 2 ^ n)

abbrev pub total : List (ℕ × ℕ) → ℕ
total [] = 0
total ((n, v) ∷ rows) = n + total rows

abbrev pub numbers : List (ℕ × ℕ) → List ℕ
numbers [] = []
numbers ((n, v) ∷ rows) = v ∷ numbers rows

abbrev pub row_bits : List (ℕ × ℕ) → List ℕ
row_bits [] = []
row_bits ((n, v) ∷ rows) = bits n v ++ row_bits rows

abbrev pub write_rows : {S : Type 0} → Writer S → List (ℕ × ℕ) → Action (BitWriter S) (Unit {0})
write_rows w [] = return tt
write_rows w ((n, v) ∷ rows) = write_bits w n v >> write_rows w rows

abbrev pub read_rows : {S : Type 0} → Reader S → List (ℕ × ℕ) → Action (BitReader S) (List ℕ)
read_rows r [] = return []
read_rows r ((n, v) ∷ rows) = do m ← read_bits r n; ms ← read_rows r rows; return (m ∷ ms)

-- The constructors.
abbrev pub fresh_writer : {S : Type 0} → S → BitWriter S
fresh_writer s = record { writer = s; bits_valid = 0; current_byte = 0 }

abbrev pub fresh_reader : {S : Type 0} → S → BitReader S
fresh_reader s = record { reader = s; bits_valid = 0; current_byte = 0 }

zeros : (n : ℕ) → length (replicate {A = ℕ} n 0) ≡ n
zeros n = length-replicate {A = ℕ} n 0

length-row_bits : (rows : List (ℕ × ℕ)) → length (row_bits rows) ≡ total rows
length-row_bits [] = refl
length-row_bits ((n, v) ∷ rows) =
    omega (arith, length-append (bits n v) (row_bits rows), length-bits n v, length-row_bits rows)

module _ {S : Type 0} {w : Writer S} (sink : Sink w) where
  write_rows_lem :
      (rows : List (ℕ × ℕ)) (k : ℕ) (b : BitWriter S)
      → BitRoom sink (total rows + k) b
      → Accepts sink (write_rows w rows b) (row_bits rows) k b
  write_rows_lem [] k b h =
      (b, refl, subst (λ m. BitRoom sink m b) (omega arith) h, sym (append-nil (taken sink b)))
  write_rows_lem ((n, v) ∷ rows) k b h =
      let (b1, e1, h1, t1) =
        write_bits_lem sink n v (total rows + k) b
          (subst (λ m. BitRoom sink m b) (omega arith) h) in
      let (b2, e2, h2, t2) = write_rows_lem rows k b1 h1 in
      (
        b2,
        rw (e1, e2) refl,
        h2,
        rw (t2, t1) (append_assoc (taken sink b) (bits n v) (row_bits rows)),
      )

module _ {S : Type 0} {r : Reader S} (stream : Stream r) where
  read_rows_lem :
      (rows : List (ℕ × ℕ)) (tl : List ℕ) (b : BitReader S)
      → All Narrow rows
      → BitValid stream b
      → waiting stream b ≡ row_bits rows ++ tl
      → Gives stream (read_rows r rows b) (numbers rows) tl
  read_rows_lem [] tl b narrow v e = (b, refl, v, e)
  read_rows_lem ((n, m) ∷ rows) tl b narrow v e =
      let (b1, e1, v1, w1) =
        read_bits_lem stream n m (row_bits rows ++ tl) b v (narrow.0).0 (narrow.0).1
          (e ∙ append_assoc (bits n m) (row_bits rows) tl) in
      let (b2, e2, v2, w2) = read_rows_lem rows tl b1 narrow.1 v1 w1 in
      (b2, rw (e1, e2) refl, v2, w2)

-- Numbers of up to 32 bits each, written to an empty writer that has room for their bits and flushed,
-- are read back by a BitReader of the same widths from a reader of the bytes written.
pub write_rows-read_rows :
    {S T : Type 0} {w : Writer S} {r : Reader T} (sink : Sink w) (stream : Stream r)
    (rows : List (ℕ × ℕ)) (s : S) (open_reader : Bytes → T)
    → All Narrow rows
    → sink.written s ≡ []
    → sink.Room ((total rows + 7) / 8) s
    → ((bs : Bytes) → length bs ≤ (total rows + 7) / 8 → stream.supply.Valid (open_reader bs))
    → ((bs : Bytes) → stream.supply.rest (open_reader bs) ≡ bs)
    → (b : BitWriter S) × (c : BitReader T) × ((write_rows w rows >> flush w) (fresh_writer s)
        ≡ returned tt b)
      × (read_rows r rows (fresh_reader (open_reader (sink.written b.writer)))
          ≡ returned (numbers rows) c)
write_rows-read_rows sink stream rows s open_reader narrow none room valid rest =
    let (b1, e1, h1, t1) = write_rows_lem sink rows 7 (fresh_writer s) (record {
      few = omega arith;
      narrow = omega arith;
      room = subst (λ n. sink.Room n s) (omega arith) room;
    }) in
    let (b2, pad, lt, e2, z2, t2) = flush_lem sink b1 h1 in
    let bs = sink.written b2.writer in
    let all : bits_of bs ≡ row_bits rows ++ replicate pad 0 =
      t2 ∙ ap (λ l. l ++ replicate pad 0) (t1 ∙ ap (λ l. bits_of l ++ [] ++ row_bits rows) none) in
    let eight : 8 * length bs ≡ length (row_bits rows) + length (replicate pad 0) =
      sym (length-bits_of bs) ∙ ap length all ∙ length-append (row_bits rows) (replicate pad 0) in
    let small : length bs ≤ (total rows + 7) / 8 =
      omega (arith, eight, lt, length-row_bits rows, zeros pad) in
    let (c, e3, v3, w3) =
      read_rows_lem stream rows (replicate pad 0) (fresh_reader (open_reader bs)) narrow
        (record { few = omega arith; valid = valid bs small }) (ap bits_of (rest bs) ∙ all) in
    (b2, c, rw (e1, e2) refl, e3)
