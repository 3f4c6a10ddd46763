-- ===== src/Json/RoundTrip.antt =====
-- The encoder and the decoder of libs/json together: cbor-writer.cc and cbor-reader.cc.
use obtools.Common.{
  ℕ, zero, suc, ◌+◌, ◌*◌, ◌≤◌, ◌<◌, ◌≡◌, refl, sym, subst, ap, ◌∙◌, [], ◌∷◌, ◌++◌, append_assoc,
  some, length, length-append, arith,
}
use obtools.Channel.{Bytes, Action, returned, ◌>>◌, Reader, Writer}
use obtools.Channel.Writing.{write_byte}
use obtools.Channel.Streams.{Stream}
use obtools.Channel.Sinks.{Sink, Adds}
use obtools.Channel.Texts.{Texts}
use obtools.Json.{Value, array, break_value, Values, no_values, value, push_back}
use obtools.Json.CborWriter.{encode, encode_values, open_indefinite_array, close_indefinite_array}
use obtools.Json.CborReader.{decode, decode_until_break}
use obtools.Json.Form.{form, form_values, Encodable, EncodableValues}
use obtools.Json.Encoding.{chain, encode_lem, encode_values_lem}
use obtools.Json.Joining.{join_values, join_values-none, join-push_back, form_nonempty, not_break}
use obtools.Json.Decoding.{first_byte, Yields, decode_simple_lem, decode_lem}

-- A writer with enough room takes an encodable value: integers of 64 bits, strings, binary data,
-- truth values, null, undefined, and arrays and objects of these of less than 2 ^ 32 elements. With
-- two turns for each byte and one more, the decoder reads the same value from any reader whose
-- remaining bytes are those that were written, and more after them, and leaves the rest.
pub encode-decode :
    {S T : Type 0} {w : Writer S} {r : Reader T} (sink : Sink w) (stream : Stream r)
    (texts : Texts stream) (v : Value) (fuel : ℕ) (tl : Bytes) (s : S) (t : T)
    → Encodable v
    → sink.Room (length (form v)) s
    → 2 * length (form v) < fuel
    → stream.supply.Valid t
    → stream.supply.rest t ≡ form v ++ tl
    → (s' : S) × (t' : T) × (encode w v s ≡ returned tt s')
      × (sink.written s' ≡ sink.written s ++ form v)
      × (decode r fuel t ≡ returned (some v) t')
      × (stream.supply.rest t' ≡ tl)
encode-decode sink stream texts v zero tl s t fit room h valid e = absurd (omega arith)
encode-decode sink stream texts v (suc fuel) tl s t fit room h valid e =
    let (s1, e1, v1, w1) =
      encode_lem sink v 0 s fit (subst (λ k. sink.Room k s) (omega arith) room) in
    let (t1, f1, v2, r1) = decode_lem stream texts v fuel tl t fit (omega arith) valid e in
    (s1, t1, e1, w1, f1, r1)

abbrev pub write_indefinite : {S : Type 0} → Writer S → Values → Action S (Unit {0})
write_indefinite w vs = open_indefinite_array w >> encode_values w vs >> close_indefinite_array w

abbrev pub indefinite_form : Values → Bytes
indefinite_form vs = (0x9f ∷ form_values vs) ++ (0xff ∷ [])

write_indefinite_lem :
    {S : Type 0} {w : Writer S} (sink : Sink w) (vs : Values) (n : ℕ) (s : S)
    → EncodableValues vs
    → sink.Room (length (indefinite_form vs) + n) s
    → Adds sink (write_indefinite w vs s) (indefinite_form vs) n s
unfolding open_indefinite_array close_indefinite_array write_byte
write_indefinite_lem {w} sink vs n s fit room =
    chain sink (open_indefinite_array w >> encode_values w vs) (close_indefinite_array w)
      (0x9f ∷ form_values vs) (0xff ∷ []) n s
      (λ s1 v1.
        chain sink (open_indefinite_array w) (encode_values w vs) (0x9f ∷ []) (form_values vs)
          (1 + n) s1 (λ s2 v2. sink.writes (0x9f ∷ []) (length (form_values vs) + (1 + n)) s2 v2)
          (λ s2 v2. encode_values_lem sink vs (1 + n) s2 fit v2) v1)
      (λ s1 v1. sink.writes (0xff ∷ []) n s1 v1) room

module _ {T : Type 0} {r : Reader T} (stream : Stream r) (texts : Texts stream) where
  decode_until_break_lem :
      (vs : Values) (fuel : ℕ) (acc : Values) (tl : Bytes) (t : T)
      → EncodableValues vs
      → 2 * length (form_values vs) + 2 ≤ fuel
      → stream.supply.Valid t
      → stream.supply.rest t ≡ (form_values vs ++ (0xff ∷ [])) ++ tl
      → Yields stream texts (decode_until_break r fuel acc) (join_values acc vs) tl t
  unfolding decode form Encodable
  decode_until_break_lem vs zero acc tl t fit h v e = absurd (omega arith)
  decode_until_break_lem vs (suc zero) acc tl t fit h v e = absurd (omega arith)
  decode_until_break_lem no_values (suc (suc fuel)) acc tl t fit h v e =
      let (t1, e1, v1, r1) =
        decode_simple_lem stream texts 0xff fuel break_value tl t (omega arith)
          (λ t' e'. rw e' refl) v e in
      (t1, rw e1 (ap (λ us. returned (some us) t1) (sym (join_values-none acc))), v1, r1)
  decode_until_break_lem (value w ws) (suc (suc fuel)) acc tl t fit h v e =
      let l = length-append (form w) (form_values ws) in
      let end : Bytes = 0xff ∷ [] in
      let (t1, e1, v1, r1) =
        decode_lem stream texts w fuel ((form_values ws ++ end) ++ tl) t fit.0 (omega (arith, l)) v
          (e
            ∙ ap (λ bs. bs ++ tl) (append_assoc (form w) (form_values ws) end)
            ∙ append_assoc (form w) (form_values ws ++ end) tl) in
      let (t2, e2, v2, r2) =
        decode_until_break_lem ws (suc fuel) (push_back acc w) tl t1 fit.1
          (omega (arith, l, form_nonempty w fit.0)) v1 r1 in
      (t2, rw (e1, not_break w fit.0, e2, join-push_back acc ws w) refl, v2, r2)

  decode_indefinite_lem :
      (vs : Values) (fuel : ℕ) (tl : Bytes) (t : T)
      → EncodableValues vs
      → 2 * length (form_values vs) + 2 ≤ fuel
      → stream.supply.Valid t
      → stream.supply.rest t ≡ indefinite_form vs ++ tl
      → Yields stream texts (decode r (suc fuel)) (array vs) tl t
  unfolding decode
  decode_indefinite_lem vs fuel tl t fit h v e =
      let (t1, e1, v1, r1) =
        first_byte stream 0x9f ((form_values vs ++ (0xff ∷ [])) ++ tl) t (omega arith) v e in
      let (t2, e2, v2, r2) = decode_until_break_lem vs fuel no_values tl t1 fit h v1 r1 in
      (t2, rw (e1, e2) refl, v2, r2)

-- Values written between the opening and the closing of an indefinite array, however many they are,
-- are decoded as one array of these values.
pub indefinite-decode :
    {S T : Type 0} {w : Writer S} {r : Reader T} (sink : Sink w) (stream : Stream r)
    (texts : Texts stream) (vs : Values) (fuel : ℕ) (tl : Bytes) (s : S) (t : T)
    → EncodableValues vs
    → sink.Room (length (indefinite_form vs)) s
    → 2 * length (indefinite_form vs) < fuel
    → stream.supply.Valid t
    → stream.supply.rest t ≡ indefinite_form vs ++ tl
    → (s' : S) × (t' : T) × (write_indefinite w vs s ≡ returned tt s')
      × (sink.written s' ≡ sink.written s ++ indefinite_form vs)
      × (decode r fuel t ≡ returned (some (array vs)) t')
      × (stream.supply.rest t' ≡ tl)
indefinite-decode sink stream texts vs zero tl s t fit room h valid e = absurd (omega arith)
indefinite-decode sink stream texts vs (suc fuel) tl s t fit room h valid e =
    let l = length-append (form_values vs) (0xff ∷ []) in
    let (s1, e1, v1, w1) =
      write_indefinite_lem sink vs 0 s fit (subst (λ k. sink.Room k s) (omega arith) room) in
    let (t1, f1, v2, r1) =
      decode_indefinite_lem stream texts vs fuel tl t fit (omega (arith, l)) valid e in
    (s1, t1, e1, w1, f1, r1)
