-- ===== src/Json/Encoding.antt =====
-- What the encoder of libs/json/cbor-writer.cc puts into a writer.
use obtools.Common.{
  ℕ, ◌+◌, ◌-◌, ◌*◌, ◌^◌, ◌<◌, refl, sym, subst, inl, inr, [], ◌∷◌, ◌++◌, append-nil, append_assoc,
  length, length-append, ltb, ltb→lt, Bool-cases, sub64_fits, arith,
}
use obtools.Channel.{Bytes, Action, returned, ◌>>◌, Writer}
use obtools.Channel.Writing.{write, write_byte}
use obtools.Channel.Sinks.{Sink, Adds, Adds->>}
use obtools.Channel.Fields.{
  Field, byte, nbo_16, nbo_32, nbo_64, write_field, big_endian, write_field_lem,
}
use obtools.Channel.Fields
use obtools.Json.{
  Value, undefined, null, number, integer, string, object, array, true_value, false_value, binary,
  break_value, Values, no_values, value, Members, no_members, member, array_size, object_size,
}
use obtools.Json.CborWriter.{write_int, write_text, encode, encode_values, encode_members}
use obtools.Json.Form.{
  head, form, form_values, form_members, Encodable, EncodableValues, EncodableMembers,
}

module _ {S : Type 0} {w : Writer S} (sink : Sink w) where
  lengthen :
      (xs ys : Bytes) (n : ℕ) (s : S)
      → sink.Room (length (xs ++ ys) + n) s
      → sink.Room (length xs + (length ys + n)) s
  lengthen xs ys n s v = subst (λ k. sink.Room k s) (omega (arith, length-append xs ys)) v

  -- Two calls that add what they stand for.
  pub chain :
      (f g : Action S (Unit {0})) (xs ys : Bytes) (n : ℕ) (s : S)
      → ((s' : S)
          → sink.Room (length xs + (length ys + n)) s'
          → Adds sink (f s') xs (length ys + n) s')
      → ((s' : S) → sink.Room (length ys + n) s' → Adds sink (g s') ys n s')
      → sink.Room (length (xs ++ ys) + n) s
      → Adds sink ((f >> g) s) (xs ++ ys) n s
  chain f g xs ys n s a b v = Adds->> sink f g xs ys n s (a s (lengthen xs ys n s v)) b

  byte_then :
      (b i n : ℕ) (f : Field) (s : S)
      → b < 256
      → i < Fields.below f
      → sink.Room (length (b ∷ Fields.encode f i) + n) s
      → Adds sink ((write_byte w b >> write_field w f i) s) (b ∷ Fields.encode f i) n s
  byte_then b i n f s hb hi v =
      chain (write_byte w b) (write_field w f i) (b ∷ []) (Fields.encode f i) n s
        (λ s' v'. write_field_lem sink byte b (length (Fields.encode f i) + n) s' hb v')
        (λ s' v'. write_field_lem sink f i n s' hi v') v

  pub write_int_lem :
      (i major n : ℕ) (s : S)
      → major < 8
      → i < 2 ^ 64
      → sink.Room (length (head major i) + n) s
      → Adds sink (write_int w i major s) (head major i) n s
  unfolding write_int write_byte
  write_int_lem i major n s hm hi v = elim (Bool-cases (ltb i 24)) [
    | inl a ↦ rw a (sink.writes ((major * 32 + i) ∷ []) n s (rw a at v))
    | inr a ↦ elim (Bool-cases (ltb i (2 ^ 8))) [
      | inl b ↦
          rw (a, b)
            (byte_then (major * 32 + 24) i n byte s (omega arith) (ltb→lt i (2 ^ 8) b)
              (rw (a, b) at v))
      | inr b ↦ elim (Bool-cases (ltb i (2 ^ 16))) [
        | inl c ↦
            rw (a, b, c)
              (byte_then (major * 32 + 25) i n nbo_16 s (omega arith) (ltb→lt i (2 ^ 16) c)
                (rw (a, b, c) at v))
        | inr c ↦ elim (Bool-cases (ltb i (2 ^ 32))) [
          | inl d ↦
              rw (a, b, c, d)
                (byte_then (major * 32 + 26) i n nbo_32 s (omega arith) (ltb→lt i (2 ^ 32) d)
                  (rw (a, b, c, d) at v))
          | inr d ↦
              rw (a, b, c, d)
                (byte_then (major * 32 + 27) i n nbo_64 s (omega arith) hi (rw (a, b, c, d) at v))
        ]
      ]
    ]
  ]

  write_text_lem :
      (major : ℕ) (text : Bytes) (n : ℕ) (s : S)
      → major < 8
      → length text < 2 ^ 64
      → sink.Room (length (head major (length text) ++ text) + n) s
      → Adds sink (write_text w major text s) (head major (length text) ++ text) n s
  unfolding write_text write
  write_text_lem major text n s hm ht v =
      chain (write_int w (length text) major) (write w text) (head major (length text)) text n s
        (λ s' v'. write_int_lem (length text) major (length text + n) s' hm ht v')
        (λ s' v'. sink.writes text n s' v') v

  write_integer_lem :
      (i n : ℕ) (s : S)
      → i < 2 ^ 64
      → sink.Room (length (form (integer i)) + n) s
      → Adds sink (encode w (integer i) s) (form (integer i)) n s
  unfolding encode form
  write_integer_lem i n s h v = elim (Bool-cases (ltb i (2 ^ 63))) [
    | inl t ↦ rw t (write_int_lem i 0 n s (omega arith) h (rw t at v))
    | inr f ↦
        (let e = sub64_fits (2 ^ 64 - 1) i (omega arith) (omega arith) in
          rw (f, e) (write_int_lem (2 ^ 64 - 1 - i) 1 n s (omega arith) (omega arith) (rw f at v)))
  ]

  nothing : (n : ℕ) (s : S) → sink.Room (0 + n) s → Adds sink (returned tt s) [] n s
  nothing n s v =
      (s, refl, subst (λ k. sink.Room k s) (omega arith) v, sym (append-nil (sink.written s)))

  mutual
    unfolding encode form Encodable write_byte

    pub encode_lem :
        (v : Value) (n : ℕ) (s : S)
        → Encodable v
        → sink.Room (length (form v) + n) s
        → Adds sink (encode w v s) (form v) n s
    encode_lem undefined n s fit room = sink.writes (0xf7 ∷ []) n s room
    encode_lem null n s fit room = sink.writes (0xf6 ∷ []) n s room
    encode_lem (number f) n s fit room = absurd fit
    encode_lem (integer i) n s fit room = write_integer_lem i n s fit room
    encode_lem (string text) n s fit room = write_text_lem 3 text n s (omega arith) fit room
    encode_lem (object ms) n s fit room =
        chain (write_int w (object_size ms) 5) (encode_members w ms) (head 5 (object_size ms))
          (form_members ms) n s
          (λ s' v'.
            write_int_lem (object_size ms) 5 (length (form_members ms) + n) s' (omega arith)
              (omega (arith, fit.0)) v')
          (λ s' v'. encode_members_lem ms n s' fit.1 v') room
    encode_lem (array vs) n s fit room =
        chain (write_int w (array_size vs) 4) (encode_values w vs) (head 4 (array_size vs))
          (form_values vs) n s
          (λ s' v'.
            write_int_lem (array_size vs) 4 (length (form_values vs) + n) s' (omega arith)
              (omega (arith, fit.0)) v')
          (λ s' v'. encode_values_lem vs n s' fit.1 v') room
    encode_lem true_value n s fit room = sink.writes (0xf5 ∷ []) n s room
    encode_lem false_value n s fit room = sink.writes (0xf4 ∷ []) n s room
    encode_lem (binary text) n s fit room = write_text_lem 2 text n s (omega arith) fit room
    encode_lem break_value n s fit room = absurd fit

    pub encode_values_lem :
        (vs : Values) (n : ℕ) (s : S)
        → EncodableValues vs
        → sink.Room (length (form_values vs) + n) s
        → Adds sink (encode_values w vs s) (form_values vs) n s
    encode_values_lem no_values n s fit room = nothing n s room
    encode_values_lem (value v vs) n s fit room =
        chain (encode w v) (encode_values w vs) (form v) (form_values vs) n s
          (λ s' v'. encode_lem v (length (form_values vs) + n) s' fit.0 v')
          (λ s' v'. encode_values_lem vs n s' fit.1 v') room

    encode_members_lem :
        (ms : Members) (n : ℕ) (s : S)
        → EncodableMembers ms
        → sink.Room (length (form_members ms) + n) s
        → Adds sink (encode_members w ms s) (form_members ms) n s
    encode_members_lem no_members n s fit room = nothing n s room
    encode_members_lem (member k v ms) n s fit room =
        let xs = head 3 (length k) ++ k in
        let e = append_assoc xs (form v) (form_members ms) in
        rw (← e) (
          chain (write_text w 3 k >> encode w v) (encode_members w ms) (xs ++ form v)
            (form_members ms) n s
            (λ s1 v1.
              chain (write_text w 3 k) (encode w v) xs (form v) (length (form_members ms) + n) s1
                (λ s2 v2.
                  write_text_lem 3 k (length (form v) + (length (form_members ms) + n)) s2
                    (omega arith) fit.0 v2)
                (λ s2 v2. encode_lem v (length (form_members ms) + n) s2 fit.2 v2) v1)
            (λ s1 v1. encode_members_lem ms n s1 fit.3 v1)
            (subst (λ bs. sink.Room (length bs + n) s) (sym e) room))
