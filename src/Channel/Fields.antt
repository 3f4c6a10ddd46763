-- ===== src/Channel/Fields.antt =====
-- The integers of libs/chan/writer.cc and reader.cc: what one writes the other reads.
use obtools.Common.{
  ℕ, zero, suc, ◌+◌, ◌*◌, ◌/◌, ◌%◌, ◌^◌, ◌<◌, ◌≡◌, refl, subst, ap, ◌∙◌, [], ◌∷◌, ◌++◌, length,
  length-append, take, drop, take-append, drop-append, arith, add64, get_or,
}
use obtools.Channel.{Bytes, Action, Outcome, returned, ◌>>=◌, return, Reader, Writer}
use obtools.Channel.Reading.{
  read, read_byte, read_nbo_16, read_nbo_24, read_nbo_32, read_nbo_64, read_le_16, read_le_24,
  read_le_32, read_le_64, from_nbo, le_32,
}
use obtools.Channel.Writing.{
  write_byte, write_nbo_16, write_nbo_24, write_nbo_32, write_nbo_64, write_le_16, write_le_24,
  write_le_32, write_le_64,
}
use obtools.Channel.Streams.{Stream, read-exact}
use obtools.Channel.Sinks.{Sink, Adds, Adds->>}

pub data Field : Type 0 where
  byte : Field
  nbo_16 : Field
  nbo_24 : Field
  nbo_32 : Field
  nbo_64 : Field
  le_16 : Field
  le_24 : Field
  le_32_bits : Field
  le_64 : Field

abbrev pub size : Field → ℕ
size byte = 1
size nbo_16 = 2
size nbo_24 = 3
size nbo_32 = 4
size nbo_64 = 8
size le_16 = 2
size le_24 = 3
size le_32_bits = 4
size le_64 = 8

abbrev pub below : Field → ℕ
below f = 2 ^ (8 * size f)

abbrev pub write_field : {S : Type 0} → Writer S → Field → ℕ → Action S (Unit {0})
write_field w byte = write_byte w
write_field w nbo_16 = write_nbo_16 w
write_field w nbo_24 = write_nbo_24 w
write_field w nbo_32 = write_nbo_32 w
write_field w nbo_64 = write_nbo_64 w
write_field w le_16 = write_le_16 w
write_field w le_24 = write_le_24 w
write_field w le_32_bits = write_le_32 w
write_field w le_64 = write_le_64 w

abbrev pub read_field : {S : Type 0} → Reader S → Field → Action S ℕ
read_field r byte = read_byte r
read_field r nbo_16 = read_nbo_16 r
read_field r nbo_24 = read_nbo_24 r
read_field r nbo_32 = read_nbo_32 r
read_field r nbo_64 = read_nbo_64 r
read_field r le_16 = read_le_16 r
read_field r le_24 = read_le_24 r
read_field r le_32_bits = read_le_32 r
read_field r le_64 = read_le_64 r

-- The bytes of a number, the most significant first or last.
abbrev pub big_endian : ℕ → ℕ → Bytes
big_endian zero i = []
big_endian (suc n) i = i / 2 ^ (8 * n) % 256 ∷ big_endian n i

abbrev pub little_endian : ℕ → ℕ → Bytes
little_endian zero i = []
little_endian (suc n) i = i % 256 ∷ little_endian n (i / 256)

abbrev pub encode : Field → ℕ → Bytes
encode byte i = i ∷ []
encode nbo_16 i = big_endian 2 i
encode nbo_24 i = big_endian 3 i
encode nbo_32 i = big_endian 4 i
encode nbo_64 i = big_endian 8 i
encode le_16 i = little_endian 2 i
encode le_24 i = little_endian 3 i
encode le_32_bits i = little_endian 4 i
encode le_64 i = little_endian 8 i

pub big_halves : (i : ℕ) → big_endian 8 i ≡ big_endian 4 (i / 2 ^ 32) ++ big_endian 4 (i % 2 ^ 32)
big_halves i = ground arith

pub little_halves :
    (i : ℕ) → little_endian 8 i ≡ little_endian 4 (i % 2 ^ 32) ++ little_endian 4 (i / 2 ^ 32)
little_halves i = ground arith

module _ {S : Type 0} {r : Reader S} (stream : Stream r) where
  -- A read of `bs` where they stand before `tl`.
  abbrev pub Takes : {A : Type 0} → Outcome S A → A → Bytes → Type 0
  Takes out a tl =
      (s' : S) × (out ≡ returned a s') × stream.supply.Valid s' × (stream.supply.rest s' ≡ tl)

  pub read_next :
      (count : ℕ) (bs tl : Bytes) (s : S)
      → stream.supply.Valid s
      → 0 < count
      → count ≡ length bs
      → stream.supply.rest s ≡ bs ++ tl
      → Takes (read r count s) bs tl
  read_next count bs tl s v pos h e =
      let (s1, e1, v1, r1) =
        read-exact stream count s v pos (omega (arith, h, ap length e, length-append bs tl)) in
      (
        s1,
        rw (ap (take count) e ∙ take-append bs tl count h) at e1,
        v1,
        r1 ∙ ap (drop count) e ∙ drop-append bs tl count h,
      )

  pub read_then :
      (count : ℕ) (f : Bytes → ℕ) (bs tl : Bytes) (i : ℕ) (s : S)
      → stream.supply.Valid s
      → 0 < count
      → count ≡ length bs
      → stream.supply.rest s ≡ bs ++ tl
      → f bs ≡ i
      → Takes ((read r count >>= λ got. return (f got)) s) i tl
  read_then count f bs tl i s v pos h e num =
      let (s1, e1, v1, r1) = read_next count bs tl s v pos h e in
      (s1, rw e1 (ap (λ k. returned k s1) num), v1, r1)

  read_nbo_32_lem :
      (i : ℕ) (tl : Bytes) (s : S)
      → i < 2 ^ 32
      → stream.supply.Valid s
      → stream.supply.rest s ≡ big_endian 4 i ++ tl
      → Takes (read_nbo_32 r s) i tl
  unfolding read_nbo_32
  read_nbo_32_lem i tl s h v e =
      read_then 4 (λ bs. from_nbo bs 0) (big_endian 4 i) tl i s v (omega arith) refl e (omega arith)

  read_le_32_lem :
      (i : ℕ) (tl : Bytes) (s : S)
      → i < 2 ^ 32
      → stream.supply.Valid s
      → stream.supply.rest s ≡ little_endian 4 i ++ tl
      → Takes (read_le_32 r s) i tl
  unfolding read_le_32
  read_le_32_lem i tl s h v e =
      read_then 4 le_32 (little_endian 4 i) tl i s v (omega arith) refl e (omega arith)

  pub read_field_lem :
      (f : Field) (i : ℕ) (tl : Bytes) (s : S)
      → i < below f
      → stream.supply.Valid s
      → stream.supply.rest s ≡ encode f i ++ tl
      → Takes (read_field r f s) i tl
  unfolding read_byte read_nbo_16 read_nbo_24 read_nbo_64 read_le_16 read_le_24 read_le_64 add64
  read_field_lem byte i tl s h v e =
      read_then 1 (λ bs. get_or bs 0 0) (i ∷ []) tl i s v (omega arith) refl e refl
  read_field_lem nbo_16 i tl s h v e =
      read_then 2 (λ bs. from_nbo bs 0) (big_endian 2 i) tl i s v (omega arith) refl e (omega arith)
  read_field_lem nbo_24 i tl s h v e =
      read_then 3 _ (big_endian 3 i) tl i s v (omega arith) refl e (omega arith)
  read_field_lem nbo_32 i tl s h v e = read_nbo_32_lem i tl s h v e
  read_field_lem nbo_64 i tl s h v e =
      let (s1, e1, v1, r1) =
        read_nbo_32_lem (i / 2 ^ 32) (big_endian 4 (i % 2 ^ 32) ++ tl) s (omega arith) v
          (e ∙ ap (λ bs. bs ++ tl) (big_halves i)) in
      let (s2, e2, v2, r2) = read_nbo_32_lem (i % 2 ^ 32) tl s1 (omega arith) v1 r1 in
      (s2, rw (e1, e2) (ap (λ k. returned k s2) (omega arith)), v2, r2)
  read_field_lem le_16 i tl s h v e =
      read_then 2 _ (little_endian 2 i) tl i s v (omega arith) refl e (omega arith)
  read_field_lem le_24 i tl s h v e =
      read_then 3 _ (little_endian 3 i) tl i s v (omega arith) refl e (omega arith)
  read_field_lem le_32_bits i tl s h v e = read_le_32_lem i tl s h v e
  read_field_lem le_64 i tl s h v e =
      let (s1, e1, v1, r1) =
        read_le_32_lem (i % 2 ^ 32) (little_endian 4 (i / 2 ^ 32) ++ tl) s (omega arith) v
          (e ∙ ap (λ bs. bs ++ tl) (little_halves i)) in
      let (s2, e2, v2, r2) = read_le_32_lem (i / 2 ^ 32) tl s1 (omega arith) v1 r1 in
      (s2, rw (e1, e2) (ap (λ k. returned k s2) (omega arith)), v2, r2)

module _ {S : Type 0} {w : Writer S} (sink : Sink w) where
  high : (i : ℕ) → i < 2 ^ 64 → i / 2 ^ 32 % 2 ^ 32 ≡ i / 2 ^ 32
  high i h = omega arith

  write_same :
      (xs ys : Bytes) (n : ℕ) (s : S)
      → xs ≡ ys
      → sink.Room (length ys + n) s
      → Adds sink (w.basic_write xs s) ys n s
  write_same xs ys n s e v = rw e (sink.writes ys n s v)

  write_nbo_32_lem :
      (i n : ℕ) (s : S) → sink.Room (4 + n) s → Adds sink (write_nbo_32 w i s) (big_endian 4 i) n s
  unfolding write_nbo_32
  write_nbo_32_lem i n s v = write_same _ (big_endian 4 i) n s (ground arith) v

  write_le_32_lem :
      (i n : ℕ) (s : S)
      → sink.Room (4 + n) s
      → Adds sink (write_le_32 w i s) (little_endian 4 i) n s
  unfolding write_le_32
  write_le_32_lem i n s v = write_same _ (little_endian 4 i) n s (ground arith) v

  pub write_field_lem :
      (f : Field) (i n : ℕ) (s : S)
      → i < below f
      → sink.Room (length (encode f i) + n) s
      → Adds sink (write_field w f i s) (encode f i) n s
  unfolding write_byte write_nbo_16 write_nbo_24 write_nbo_64 write_le_16 write_le_24 write_le_64
  write_field_lem byte i n s h v = sink.writes (encode byte i) n s v
  write_field_lem nbo_16 i n s h v = write_same _ (encode nbo_16 i) n s (ground arith) v
  write_field_lem nbo_24 i n s h v = write_same _ (encode nbo_24 i) n s (ground arith) v
  write_field_lem nbo_32 i n s h v = write_nbo_32_lem i n s v
  write_field_lem nbo_64 i n s h v =
      rw (high i h, big_halves i)
        (Adds->> sink (write_nbo_32 w (i / 2 ^ 32)) (write_nbo_32 w (i % 2 ^ 32))
          (big_endian 4 (i / 2 ^ 32)) (big_endian 4 (i % 2 ^ 32)) n s
          (write_nbo_32_lem (i / 2 ^ 32) (4 + n) s (subst (λ k. sink.Room k s) (omega arith) v))
          (λ s' v'. write_nbo_32_lem (i % 2 ^ 32) n s' v'))
  write_field_lem le_16 i n s h v = write_same _ (encode le_16 i) n s (ground arith) v
  write_field_lem le_24 i n s h v = write_same _ (encode le_24 i) n s (ground arith) v
  write_field_lem le_32_bits i n s h v = write_le_32_lem i n s v
  write_field_lem le_64 i n s h v =
      rw (high i h, little_halves i)
        (Adds->> sink (write_le_32 w (i % 2 ^ 32)) (write_le_32 w (i / 2 ^ 32))
          (little_endian 4 (i % 2 ^ 32)) (little_endian 4 (i / 2 ^ 32)) n s
          (write_le_32_lem (i % 2 ^ 32) (4 + n) s (subst (λ k. sink.Room k s) (omega arith) v))
          (λ s' v'. write_le_32_lem (i / 2 ^ 32) n s' v'))
