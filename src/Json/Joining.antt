-- ===== src/Json/Joining.antt =====
-- The parts of values and of their CBOR forms, as the decoder of libs/json/cbor-reader.cc puts them
-- together.
use obtools.Common.{
  ℕ, ◌+◌, ◌*◌, ◌^◌, ◌<◌, ◌≡◌, refl, ap, inl, inr, [], ◌∷◌, ◌++◌, true, false, length, length-append,
  ltb, ◌==◌, Bool-cases, arith,
}
use obtools.Channel.{Bytes}
use obtools.Json.{
  Value, undefined, null, number, integer, string, object, array, true_value, false_value, binary,
  break_value, Values, no_values, value, Members, no_members, member, push_back, put, before,
}
use obtools.Json.CborReader.{is_break}
use obtools.Json.Form.{additional, trailing, head, form, form_members, AllAfter, Encodable}

abbrev pub join_values : Values → Values → Values
join_values no_values vs = vs
join_values (value w ws) vs = value w (join_values ws vs)

abbrev pub join_members : Members → Members → Members
join_members no_members ms = ms
join_members (member k v ks) ms = member k v (join_members ks ms)

-- Every key of the first list is before every key of the second.
abbrev pub Follows : Members → Members → Type 0
Follows no_members ms = Unit {0}
Follows (member k v ks) ms = AllAfter k ms × Follows ks ms

pub join-push_back :
    (ws vs : Values) (v : Value) → join_values (push_back ws v) vs ≡ join_values ws (value v vs)
unfolding push_back
join-push_back no_values vs v = refl
join-push_back (value w ws) vs v = ap (λ us. value w us) (join-push_back ws vs v)

pub join_values-none : (ws : Values) → join_values ws no_values ≡ ws
join_values-none no_values = refl
join_values-none (value w ws) = ap (λ us. value w us) (join_values-none ws)

pub join_members-none : (ks : Members) → join_members ks no_members ≡ ks
join_members-none no_members = refl
join_members-none (member k v ks) = ap (λ us. member k v us) (join_members-none ks)

before_asym : (xs ys : Bytes) → before xs ys ≡ true → before ys xs ≡ false
unfolding before
before_asym xs [] h = absurd (ground arith)
before_asym [] (y ∷ ys) h = refl
before_asym (x ∷ xs) (y ∷ ys) h = elim (Bool-cases (ltb x y)) [
  | inl a ↦ (let b : ltb y x ≡ false = ground arith in rw (b, a) refl)
  | inr a ↦ elim (Bool-cases (ltb y x)) [
    | inl b ↦ absurd (ground arith)
    | inr b ↦ rw (b, a) (before_asym xs ys (rw (a, b) at h))
  ]
]

pub put_last :
    (acc ms : Members) (k : Bytes) (v : Value)
    → Follows acc (member k v ms)
    → join_members (put k v acc) ms ≡ join_members acc (member k v ms)
unfolding put
put_last no_members ms k v h = refl
put_last (member k' v' acc) ms k v h =
    rw (before_asym k' k h.0.0, h.0.0) (ap (λ us. member k' v' us) (put_last acc ms k v h.1))

pub Follows-put :
    (acc ms : Members) (k : Bytes) (v : Value)
    → Follows acc (member k v ms)
    → AllAfter k ms
    → Follows (put k v acc) ms
unfolding put
Follows-put no_members ms k v h g = (g, tt)
Follows-put (member k' v' acc) ms k v h g =
    rw (before_asym k' k h.0.0, h.0.0) (h.0.1, Follows-put acc ms k v h.1 g)

pub definite : (major n : ℕ) → (major * 32 + additional n == major * 32 + 31) ≡ false
definite major n = ground arith

pub form_nonempty : (v : Value) → Encodable v → 0 < length (form v)
unfolding form Encodable
form_nonempty undefined h = omega arith
form_nonempty null h = omega arith
form_nonempty (number f) h = absurd h
form_nonempty (integer n) h = elim (Bool-cases (ltb n (2 ^ 63))) [
  | inl t ↦ rw t (omega arith)
  | inr f ↦ rw f (omega arith)
]
form_nonempty (string s) h = omega arith
form_nonempty (object ms) h = omega arith
form_nonempty (array vs) h = omega arith
form_nonempty true_value h = omega arith
form_nonempty false_value h = omega arith
form_nonempty (binary s) h = omega arith
form_nonempty break_value h = absurd h

pub length_member :
    (k : Bytes) (w : Value) (ms : Members)
    → length ((head 3 (length k) ++ k) ++ (form w ++ form_members ms))
      ≡ 1 + length (trailing (length k)) + length k + (length (form w) + length (form_members ms))
length_member k w ms = omega (
  arith,
  length-append (head 3 (length k) ++ k) (form w ++ form_members ms),
  length-append (head 3 (length k)) k,
  length-append (form w) (form_members ms),
)

pub not_break : (v : Value) → Encodable v → is_break v ≡ false
unfolding Encodable
not_break undefined h = refl
not_break null h = refl
not_break (number f) h = refl
not_break (integer n) h = refl
not_break (string s) h = refl
not_break (object ms) h = refl
not_break (array vs) h = refl
not_break true_value h = refl
not_break false_value h = refl
not_break (binary s) h = refl
not_break break_value h = absurd h
