-- ===== src/Json/Decoding.antt =====
-- What the decoder of libs/json/cbor-reader.cc makes of the CBOR form of a value.
use obtools.Common.{
  ℕ, zero, suc, ◌+◌, ◌-◌, ◌*◌, ◌%◌, ◌^◌, ◌≤◌, ◌<◌, ◌≡◌, refl, sym, ap, ◌∙◌, inl, inr, ◌∷◌, ◌++◌,
  append_assoc, true, false, Option, some, length, length-append, ltb, ltb→lt, Bool-cases, sub64,
  sub64_fits, arith,
}
use obtools.Channel.{Bytes, Action, returned, Reader}
use obtools.Channel.Reading.{read_byte}
use obtools.Channel.Streams.{Stream}
use obtools.Channel.Texts.{Texts, read_string_lem}
use obtools.Channel.Fields.{byte, nbo_16, nbo_32, nbo_64, Takes, read_field_lem}
use obtools.Json.{
  Value, undefined, null, number, integer, string, object, array, true_value, false_value, binary,
  break_value, Values, no_values, value, Members, no_members, member, array_size, object_size,
  push_back, put,
}
use obtools.Json.CborReader.{read_int, read_text, decode, decode_values, decode_members}
use obtools.Json.Form.{
  additional, trailing, head, form, form_values, form_members, Encodable, EncodableValues,
  EncodableMembers, first_byte_below, first_byte_major, first_byte_additional,
}
use obtools.Json.Joining.{
  join_values, join_members, Follows, join-push_back, join_values-none, join_members-none, put_last,
  Follows-put, definite, form_nonempty, length_member,
}

module _ {S : Type 0} {r : Reader S} (stream : Stream r) where
  read_int_lem :
      (i major : ℕ) (tl : Bytes) (s : S)
      → i < 2 ^ 64
      → stream.supply.Valid s
      → stream.supply.rest s ≡ trailing i ++ tl
      → Takes stream (read_int r (major * 32 + additional i) s) i tl
  unfolding read_int
  read_int_lem i major tl s h v e =
      let ai = first_byte_additional major i in
      elim (Bool-cases (ltb i 24)) [
        | inl a ↦ (s, rw (ai, a, a) refl, v, rw a at e)
        | inr a ↦ elim (Bool-cases (ltb i (2 ^ 8))) [
          | inl b ↦
              rw (ai, a, b)
                (read_field_lem stream byte i tl s (ltb→lt i (2 ^ 8) b) v (rw (a, b) at e))
          | inr b ↦ elim (Bool-cases (ltb i (2 ^ 16))) [
            | inl c ↦
                rw (ai, a, b, c)
                  (read_field_lem stream nbo_16 i tl s (ltb→lt i (2 ^ 16) c) v (rw (a, b, c) at e))
            | inr c ↦ elim (Bool-cases (ltb i (2 ^ 32))) [
              | inl d ↦
                  rw (ai, a, b, c, d)
                    (read_field_lem stream nbo_32 i tl s (ltb→lt i (2 ^ 32) d) v
                      (rw (a, b, c, d) at e))
              | inr d ↦
                  rw (ai, a, b, c, d)
                    (read_field_lem stream nbo_64 i tl s h v (rw (a, b, c, d) at e))
            ]
          ]
        ]
      ]

  pub first_byte :
      (b : ℕ) (tl : Bytes) (s : S)
      → b < 256
      → stream.supply.Valid s
      → stream.supply.rest s ≡ b ∷ tl
      → Takes stream (read_byte r s) b tl
  first_byte b tl s h v e = read_field_lem stream byte b tl s h v e

  -- The head of a value, and the number in it.
  pub head_lem :
      (major i : ℕ) (tl : Bytes) (s : S)
      → major < 8
      → i < 2 ^ 64
      → stream.supply.Valid s
      → stream.supply.rest s ≡ head major i ++ tl
      → (s1 : S) × (s2 : S) × (read_byte r s ≡ returned (major * 32 + additional i) s1)
        × (read_int r (major * 32 + additional i) s1 ≡ returned i s2)
        × stream.supply.Valid s2
        × (stream.supply.rest s2 ≡ tl)
  head_lem major i tl s hm hi v e =
      let (s1, e1, v1, r1) =
        first_byte (major * 32 + additional i) (trailing i ++ tl) s (first_byte_below major i hm) v
          e in
      let (s2, e2, v2, r2) = read_int_lem i major tl s1 hi v1 r1 in (s1, s2, e1, e2, v2, r2)

  module _ (texts : Texts stream) where
    -- The outcome of a call that has enough turns.
    abbrev pub Yields : {A : Type 0} → Action S (Option A) → A → Bytes → S → Type 0
    Yields m a tl s = Takes stream (m s) (some a) tl

    decode_integer_lem :
        (i fuel : ℕ) (tl : Bytes) (s : S)
        → i < 2 ^ 64
        → stream.supply.Valid s
        → stream.supply.rest s ≡ form (integer i) ++ tl
        → Yields (decode r (suc fuel)) (integer i) tl s
    unfolding decode form
    decode_integer_lem i fuel tl s h v e = elim (Bool-cases (ltb i (2 ^ 63))) [
      | inl t ↦
          (let (s1, s2, e1, e2, v2, r2) = head_lem 0 i tl s (omega arith) h v (rw t at e) in
            (s2, rw (e1, first_byte_major 0 i, e2) refl, v2, r2))
      | inr f ↦
          (let j = 2 ^ 64 - 1 - i in
            let (s1, s2, e1, e2, v2, r2) =
              head_lem 1 j tl s (omega arith) (omega arith) v (rw f at e) in
            let back : sub64 (2 ^ 64 - 1) j ≡ i =
              sub64_fits (2 ^ 64 - 1) j (omega arith) (omega arith) ∙ omega arith in
            (s2, rw (e1, first_byte_major 1 j, e2, back) refl, v2, r2))
    ]

    read_text_lem :
        (make : Bytes → Value) (major : ℕ) (text tl : Bytes) (s : S)
        → major < 8
        → length text < 2 ^ 64
        → stream.supply.Valid s
        → stream.supply.rest s ≡ trailing (length text) ++ (text ++ tl)
        → Yields (read_text r make (major * 32 + additional (length text))) (make text) tl s
    unfolding read_text
    read_text_lem make major text tl s hm h v e =
        let (s1, e1, v1, r1) = read_int_lem (length text) major (text ++ tl) s h v e in
        let (s2, e2, v2, r2) = read_string_lem texts text tl s1 v1 r1 in
        (s2, rw (e1, e2) refl, v2, r2)

    decode_text_lem :
        (major : ℕ) (text tl : Bytes) (s : S)
        → major < 8
        → length text < 2 ^ 64
        → stream.supply.Valid s
        → stream.supply.rest s ≡ (head major (length text) ++ text) ++ tl
        → (s1 : S) × (read_byte r s ≡ returned (major * 32 + additional (length text)) s1)
          × ((make : Bytes → Value)
              → Yields (read_text r make (major * 32 + additional (length text))) (make text) tl s1)
    decode_text_lem major text tl s hm h v e =
        let n = length text in
        let (s1, e1, v1, r1) =
          first_byte (major * 32 + additional n) (trailing n ++ (text ++ tl)) s
            (first_byte_below major n hm) v (e ∙ append_assoc (head major n) text tl) in
        (s1, e1, λ make. read_text_lem make major text tl s1 hm h v1 r1)

    decode_string_lem :
        (text : Bytes) (fuel : ℕ) (tl : Bytes) (s : S)
        → length text < 2 ^ 64
        → stream.supply.Valid s
        → stream.supply.rest s ≡ (head 3 (length text) ++ text) ++ tl
        → Yields (decode r (suc fuel)) (string text) tl s
    unfolding decode
    decode_string_lem text fuel tl s h v e =
        let (s1, e1, k) = decode_text_lem 3 text tl s (omega arith) h v e in
        let (s2, e2, v2, r2) = k string in
        (s2, rw (e1, first_byte_major 3 (length text)) e2, v2, r2)

    decode_binary_lem :
        (text : Bytes) (fuel : ℕ) (tl : Bytes) (s : S)
        → length text < 2 ^ 64
        → stream.supply.Valid s
        → stream.supply.rest s ≡ (head 2 (length text) ++ text) ++ tl
        → Yields (decode r (suc fuel)) (binary text) tl s
    unfolding decode
    decode_binary_lem text fuel tl s h v e =
        let (s1, e1, k) = decode_text_lem 2 text tl s (omega arith) h v e in
        let (s2, e2, v2, r2) = k binary in
        (s2, rw (e1, first_byte_major 2 (length text)) e2, v2, r2)

    pub decode_simple_lem :
        (b fuel : ℕ) (w : Value) (tl : Bytes) (s : S)
        → b < 256
        → ((s' : S) → read_byte r s ≡ returned b s' → decode r (suc fuel) s ≡ returned (some w) s')
        → stream.supply.Valid s
        → stream.supply.rest s ≡ b ∷ tl
        → Yields (decode r (suc fuel)) w tl s
    decode_simple_lem b fuel w tl s h run v e =
        let (s1, e1, v1, r1) = first_byte b tl s h v e in (s1, run s1 e1, v1, r1)

    mutual
      unfolding decode form Encodable

      pub decode_lem :
          (w : Value) (fuel : ℕ) (tl : Bytes) (s : S)
          → Encodable w
          → 2 * length (form w) ≤ fuel
          → stream.supply.Valid s
          → stream.supply.rest s ≡ form w ++ tl
          → Yields (decode r (suc fuel)) w tl s
      decode_lem undefined fuel tl s fit h v e =
          decode_simple_lem 0xf7 fuel undefined tl s (omega arith) (λ s' e'. rw e' refl) v e
      decode_lem null fuel tl s fit h v e =
          decode_simple_lem 0xf6 fuel null tl s (omega arith) (λ s' e'. rw e' refl) v e
      decode_lem (number f) fuel tl s fit h v e = absurd fit
      decode_lem (integer i) fuel tl s fit h v e = decode_integer_lem i fuel tl s fit v e
      decode_lem (string text) fuel tl s fit h v e = decode_string_lem text fuel tl s fit v e
      decode_lem (object ms) fuel tl s fit h v e =
          let n = object_size ms in
          let (s1, s2, e1, e2, v2, r2) =
            head_lem 5 n (form_members ms ++ tl) s (omega arith) (omega (arith, fit.0)) v
              (e ∙ append_assoc (head 5 n) (form_members ms) tl) in
          let (s3, e3, v3, r3) =
            decode_members_lem ms fuel 0 n no_members tl s2 fit.0 (omega arith) fit.1 tt
              (omega (arith, length-append (head 5 n) (form_members ms))) v2 r2 in
          (s3, rw (e1, first_byte_major 5 n, definite 5 n, e2, e3) refl, v3, r3)
      decode_lem (array vs) fuel tl s fit h v e =
          let n = array_size vs in
          let (s1, s2, e1, e2, v2, r2) =
            head_lem 4 n (form_values vs ++ tl) s (omega arith) (omega (arith, fit.0)) v
              (e ∙ append_assoc (head 4 n) (form_values vs) tl) in
          let (s3, e3, v3, r3) =
            decode_values_lem vs fuel 0 n no_values tl s2 fit.0 (omega arith) fit.1
              (omega (arith, length-append (head 4 n) (form_values vs))) v2 r2 in
          (s3, rw (e1, first_byte_major 4 n, definite 4 n, e2, e3) refl, v3, r3)
      decode_lem true_value fuel tl s fit h v e =
          decode_simple_lem 0xf5 fuel true_value tl s (omega arith) (λ s' e'. rw e' refl) v e
      decode_lem false_value fuel tl s fit h v e =
          decode_simple_lem 0xf4 fuel false_value tl s (omega arith) (λ s' e'. rw e' refl) v e
      decode_lem (binary text) fuel tl s fit h v e = decode_binary_lem text fuel tl s fit v e
      decode_lem break_value fuel tl s fit h v e = absurd fit

      decode_values_lem :
          (vs : Values) (fuel i len : ℕ) (acc : Values) (tl : Bytes) (s : S)
          → len < 2 ^ 32
          → i + array_size vs ≡ len
          → EncodableValues vs
          → 2 * length (form_values vs) + 2 ≤ fuel
          → stream.supply.Valid s
          → stream.supply.rest s ≡ form_values vs ++ tl
          → Yields (decode_values r fuel i len acc) (join_values acc vs) tl s
      decode_values_lem vs zero i len acc tl s hl hi fit h v e = absurd (omega arith)
      decode_values_lem no_values (suc fuel) i len acc tl s hl hi fit h v e =
          let f : ltb i len ≡ false = ground arith in
          (s, rw f (ap (λ us. returned (some us) s) (sym (join_values-none acc))), v, e)
      decode_values_lem (value w ws) (suc zero) i len acc tl s hl hi fit h v e =
          absurd (omega (arith, form_nonempty w fit.0, length-append (form w) (form_values ws)))
      decode_values_lem (value w ws) (suc (suc fuel)) i len acc tl s hl hi fit h v e =
          let t : ltb i len ≡ true = ground arith in
          let l = length-append (form w) (form_values ws) in
          let pos = form_nonempty w fit.0 in
          let (s1, e1, v1, r1) =
            decode_lem w fuel (form_values ws ++ tl) s fit.0 (omega (arith, l)) v
              (e ∙ append_assoc (form w) (form_values ws) tl) in
          let (s2, e2, v2, r2) =
            decode_values_lem ws (suc fuel) ((i + 1) % 2 ^ 32) len (push_back acc w) tl s1 hl
              (omega arith) fit.1 (omega (arith, l, pos)) v1 r1 in
          (s2, rw (t, e1, e2, join-push_back acc ws w) refl, v2, r2)

      decode_members_lem :
          (ms : Members) (fuel i len : ℕ) (acc : Members) (tl : Bytes) (s : S)
          → len < 2 ^ 32
          → i + object_size ms ≡ len
          → EncodableMembers ms
          → Follows acc ms
          → 2 * length (form_members ms) + 2 ≤ fuel
          → stream.supply.Valid s
          → stream.supply.rest s ≡ form_members ms ++ tl
          → Yields (decode_members r fuel i len acc) (join_members acc ms) tl s
      decode_members_lem ms zero i len acc tl s hl hi fit fol h v e = absurd (omega arith)
      decode_members_lem no_members (suc fuel) i len acc tl s hl hi fit fol h v e =
          let f : ltb i len ≡ false = ground arith in
          (s, rw f (ap (λ us. returned (some us) s) (sym (join_members-none acc))), v, e)
      decode_members_lem (member k w ms) (suc zero) i len acc tl s hl hi fit fol h v e =
          absurd (omega (arith, form_nonempty w fit.2, length_member k w ms))
      decode_members_lem (member k w ms) (suc (suc fuel)) i len acc tl s hl hi fit fol h v e =
          let t : ltb i len ≡ true = ground arith in
          let l = length_member k w ms in
          let pos = form_nonempty w fit.2 in
          let xs = head 3 (length k) ++ k in
          let (s1, e1, v1, r1) =
            decode_string_lem k fuel ((form w ++ form_members ms) ++ tl) s fit.0 v
              (e ∙ append_assoc xs (form w ++ form_members ms) tl) in
          let (s2, e2, v2, r2) =
            decode_lem w fuel (form_members ms ++ tl) s1 fit.2 (omega (arith, l)) v1
              (r1 ∙ append_assoc (form w) (form_members ms) tl) in
          let (s3, e3, v3, r3) =
            decode_members_lem ms (suc fuel) ((i + 1) % 2 ^ 32) len (put k w acc) tl s2 hl
              (omega arith) fit.3 (Follows-put acc ms k w fol fit.1) (omega (arith, l, pos)) v2
              r2 in
          (s3, rw (t, e1, e2, e3, put_last acc ms k w fol) refl, v3, r3)
