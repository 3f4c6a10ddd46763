-- ===== src/Json/Calls.antt =====
-- The calls of the decoder of libs/json/cbor-reader.cc that do not call it again come to an end.
use obtools.Common.{ℕ, ◌%◌, refl, inl, inr, Option, some, ltb, ◌==◌, Bool-cases, arith}
use obtools.Channel.{Bytes, Error, Action, thrown, Reader}
use obtools.Channel.Reading.{read_string}
use obtools.Channel.Streams.{Stream}
use obtools.Channel.Texts.{Texts}
use obtools.Channel.Settling.{
  Settles, Settles->>=, Settles-return, Settles-weaken, read_byte-Settles, read_nbo_16-Settles,
  read_nbo_32-Settles, read_nbo_64-Settles, read_string-Settles,
}
use obtools.Text.{itos}
use obtools.Json.{
  Value, undefined, null, number, integer, string, object, array, true_value, false_value, binary,
  break_value,
}
use obtools.Json.CborReader.{with_key, decode_simple, read_int, read_text, tag_type}

module _ {S : Type 0} {r : Reader S} (stream : Stream r) where
  pub thrown-Settles :
      {A B : Type 0} (made : A → B) (e : Error) (k : ℕ) (s : S)
      → stream.supply.Valid s
      → Settles stream made (thrown e s) k s
  thrown-Settles made e k s v = inr (e, s, refl, v)

  pub read_int-Settles :
      (initial_byte : ℕ) (s : S)
      → stream.supply.Valid s
      → Settles stream (λ n. n) (read_int r initial_byte s) 0 s
  unfolding read_int
  read_int-Settles initial_byte s v =
      let ai = initial_byte % 32 in
      elim (Bool-cases (ltb ai 24)) [
        | inl a ↦ rw a (Settles-return stream (λ n. n) ai s v)
        | inr a ↦ elim (Bool-cases (ai == 24)) [
          | inl b ↦
              rw (a, b)
                (Settles-weaken stream (λ n. n) _ 1 0 s (omega arith)
                  (read_byte-Settles stream s v))
          | inr b ↦ elim (Bool-cases (ai == 25)) [
            | inl c ↦
                rw (a, b, c)
                  (Settles-weaken stream (λ n. n) _ 2 0 s (omega arith)
                    (read_nbo_16-Settles stream s v))
            | inr c ↦ elim (Bool-cases (ai == 26)) [
              | inl d ↦
                  rw (a, b, c, d)
                    (Settles-weaken stream (λ n. n) _ 4 0 s (omega arith)
                      (read_nbo_32-Settles stream s v))
              | inr d ↦ elim (Bool-cases (ai == 27)) [
                | inl e ↦
                    rw (a, b, c, d, e)
                      (Settles-weaken stream (λ n. n) _ 4 0 s (omega arith)
                        (read_nbo_64-Settles stream s v))
                | inr e ↦ rw (a, b, c, d, e) (thrown-Settles (λ n. n) _ 0 s v)
              ]
            ]
          ]
        ]
      ]

  pub tag_type-Settles :
      (initial_byte : ℕ) (s : S)
      → stream.supply.Valid s
      → Settles stream (λ n. n) (tag_type r initial_byte s) 0 s
  unfolding tag_type
  tag_type-Settles initial_byte s v = elim (Bool-cases (ltb 23 (initial_byte % 32))) [
    | inl a ↦
        rw a (Settles-weaken stream (λ n. n) _ 1 0 s (omega arith) (read_byte-Settles stream s v))
    | inr a ↦ rw a (Settles-return stream (λ n. n) _ s v)
  ]

  pub decode_simple-Settles :
      (n : ℕ) (s : S) → stream.supply.Valid s → Settles stream some (decode_simple n s) 0 s
  decode_simple-Settles n s v = elim (Bool-cases (n == 20)) [
    | inl a ↦ rw a (Settles-return stream some false_value s v)
    | inr a ↦ elim (Bool-cases (n == 21)) [
      | inl b ↦ rw (a, b) (Settles-return stream some true_value s v)
      | inr b ↦ elim (Bool-cases (n == 22)) [
        | inl c ↦ rw (a, b, c) (Settles-return stream some null s v)
        | inr c ↦ elim (Bool-cases (n == 23)) [
          | inl d ↦ rw (a, b, c, d) (Settles-return stream some undefined s v)
          | inr d ↦ elim (Bool-cases (n == 31)) [
            | inl e ↦ rw (a, b, c, d, e) (Settles-return stream some break_value s v)
            | inr e ↦ rw (a, b, c, d, e) (thrown-Settles some _ 0 s v)
          ]
        ]
      ]
    ]
  ]

  pub with_key-Settles :
      {B : Type 0} (key : Value) (f : Bytes → Action S (Option B)) (k : ℕ) (s : S)
      → stream.supply.Valid s
      → ((text : Bytes) → Settles stream some (f text s) k s)
      → Settles stream some (with_key key f s) k s
  with_key-Settles undefined f k s v next = thrown-Settles some _ k s v
  with_key-Settles null f k s v next = thrown-Settles some _ k s v
  with_key-Settles (number n) f k s v next = thrown-Settles some _ k s v
  with_key-Settles (integer n) f k s v next = next (itos n)
  with_key-Settles (string text) f k s v next = next text
  with_key-Settles (object ms) f k s v next = thrown-Settles some _ k s v
  with_key-Settles (array vs) f k s v next = thrown-Settles some _ k s v
  with_key-Settles true_value f k s v next = thrown-Settles some _ k s v
  with_key-Settles false_value f k s v next = thrown-Settles some _ k s v
  with_key-Settles (binary text) f k s v next = thrown-Settles some _ k s v
  with_key-Settles break_value f k s v next = thrown-Settles some _ k s v

  module _ (texts : Texts stream) where
    pub read_text-Settles :
        (make : Bytes → Value) (initial_byte : ℕ) (s : S)
        → stream.supply.Valid s
        → Settles stream some (read_text r make initial_byte s) 0 s
    unfolding read_text
    read_text-Settles make initial_byte s v =
        Settles->>= stream (λ n. n) some (read_int r initial_byte) _ 0 0 s
          (read_int-Settles initial_byte s v)
          (λ len s1 v1 l1.
            Settles->>= stream (λ bs. bs) some (read_string r len) _ 0 0 s1
              (read_string-Settles stream texts len s1 v1)
              (λ text s2 v2 l2. Settles-return stream some (make text) s2 v2))
