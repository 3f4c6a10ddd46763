-- ===== src/Json/Ending.antt =====
-- The decoder of libs/json/cbor-reader.cc comes to an end on every input.
use obtools.Common.{
  ℕ, zero, suc, ◌+◌, ◌*◌, ◌/◌, ◌%◌, ◌^◌, ◌≤◌, ◌<◌, ◌≡◌, ◌⊎◌, inl, inr, true, false, Option, some,
  length, ltb, ◌==◌, if◌then◌else◌, Bool, Bool-cases, arith,
}
use obtools.Channel.{Error, Action, returned, thrown, ◌>>=◌, return, Reader}
use obtools.Channel.Reading.{read_byte}
use obtools.Channel.Streams.{Stream}
use obtools.Channel.Texts.{Texts}
use obtools.Channel.Settling.{
  Settles, Settles->>=, Settles-return, Settles-weaken, read_byte-Settles,
}
use obtools.Json.{
  Value, integer, string, object, array, binary, Values, no_values, Members, no_members, push_back,
  put,
}
use obtools.Json.CborWriter.{cbor}
use obtools.Json.CborReader.{
  ◌>>?◌, is_break, read_int, tag_type, decode, decode_until_break, decode_values,
  decode_members_until_break, decode_members,
}
use obtools.Json.Calls.{
  thrown-Settles, read_int-Settles, tag_type-Settles, decode_simple-Settles, with_key-Settles,
  read_text-Settles,
}

module _ {S : Type 0} {r : Reader S} (stream : Stream r) where
  module _ (texts : Texts stream) where
    abbrev left : S → ℕ
    left s = length (stream.supply.rest s)

    -- What follows a value takes nothing at least.
    after_value :
        {A : Type 0} (fuel : ℕ) (f : Value → Action S (Option A)) (s : S)
        → Settles stream some (decode r fuel s) 1 s
        → ((v : Value) (s' : S)
            → stream.supply.Valid s'
            → left s' + 1 ≤ left s
            → Settles stream some (f v s') 0 s')
        → Settles stream some ((decode r fuel >>? f) s) 0 s
    after_value fuel f s p next =
        Settles-weaken stream some _ 1 0 s (omega arith)
          (Settles->>= stream some some (decode r fuel) _ 1 0 s p next)

    -- What follows a number, where the number is read.
    after_int :
        {A : Type 0} {f : ℕ → Action S (Option A)} (b : ℕ) (s : S)
        → Settles stream (λ n. n) (read_int r b s) 0 s
        → ((n : ℕ) (s' : S)
            → stream.supply.Valid s'
            → left s' ≤ left s
            → Settles stream some (f n s') 0 s')
        → Settles stream some ((read_int r b >>= f) s) 0 s
    after_int {f} b s p next =
        Settles->>= stream (λ n. n) some (read_int r b) f 0 0 s p
          (λ n s' v' l'. next n s' v' (omega arith))

    -- The definite and the indefinite form of an array or an object.
    collection-Settles :
        {A : Type 0} (make : A → Value) (b : ℕ) (indefinite : Bool) (x : Action S (Option A))
        (f : ℕ → Action S (Option A)) (s : S)
        → stream.supply.Valid s
        → Settles stream some (x s) 0 s
        → ((n : ℕ) (s' : S)
            → stream.supply.Valid s'
            → left s' ≤ left s
            → Settles stream some (f n s') 0 s')
        → Settles stream some
            (((if indefinite then x else (read_int r b >>= f)) >>? λ a. return (some (make a))) s)
            0
            s
    collection-Settles make b true x f s v p next =
        Settles->>= stream some some x _ 0 0 s p
          (λ a s' v' l'. Settles-return stream some (make a) s' v')
    collection-Settles make b false x f s v p next =
        Settles->>= stream some some (read_int r b >>= f) _ 0 0 s
          (after_int b s (read_int-Settles stream b s v) next)
          (λ a s' v' l'. Settles-return stream some (make a) s' v')

    mutual
      unfolding decode

      pub decode-Settles :
          (fuel : ℕ) (s : S)
          → stream.supply.Valid s
          → 2 * left s + 1 ≤ fuel
          → Settles stream some (decode r fuel s) 1 s
      decode-Settles zero s v h = absurd (omega arith)
      decode-Settles (suc fuel) s v h =
          Settles->>= stream (λ n. n) some (read_byte r) _ 1 0 s (read_byte-Settles stream s v)
            (λ b s1 v1 l1.
              let int = read_int-Settles stream b s1 v1 in
              elim (Bool-cases (b / 32 == 0)) [
                | inl a0 ↦ rw a0 (
                    after_int b s1 int (λ n s2 v2 l2. Settles-return stream some (integer n) s2 v2))
                | inr a0 ↦ elim (Bool-cases (b / 32 == 1)) [
                  | inl a1 ↦
                      rw (a0, a1)
                        (after_int b s1 int (λ n s2 v2 l2. Settles-return stream some _ s2 v2))
                  | inr a1 ↦ elim (Bool-cases (b / 32 == 2)) [
                    | inl a2 ↦ rw (a0, a1, a2) (read_text-Settles stream texts binary b s1 v1)
                    | inr a2 ↦ elim (Bool-cases (b / 32 == 3)) [
                      | inl a3 ↦ rw (a0, a1, a2, a3) (read_text-Settles stream texts string b s1 v1)
                      | inr a3 ↦ elim (Bool-cases (b / 32 == 4)) [
                        | inl a4 ↦
                            rw (a0, a1, a2, a3, a4)
                              (collection-Settles array b (b == 0x9f)
                                (decode_until_break r fuel no_values)
                                (λ len. decode_values r fuel 0 len no_values) s1 v1
                                (until_break-Settles fuel no_values s1 v1 (omega arith))
                                (λ len s2 v2 l2.
                                  values-Settles fuel 0 len no_values s2 v2 (omega arith)))
                        | inr a4 ↦ elim (Bool-cases (b / 32 == 5)) [
                          | inl a5 ↦
                              rw (a0, a1, a2, a3, a4, a5)
                                (collection-Settles object b (b == 0xbf)
                                  (decode_members_until_break r fuel no_members)
                                  (λ len. decode_members r fuel 0 len no_members) s1 v1
                                  (members_until_break-Settles fuel no_members s1 v1 (omega arith))
                                  (λ len s2 v2 l2.
                                    members-Settles fuel 0 len no_members s2 v2 (omega arith)))
                          | inr a5 ↦ elim (Bool-cases (b / 32 == 6)) [
                            | inl a6 ↦
                                rw (a0, a1, a2, a3, a4, a5, a6)
                                  (Settles->>= stream (λ n. n) some (tag_type r b) _ 0 0 s1
                                    (tag_type-Settles stream b s1 v1)
                                    (λ type s2 v2 l2. elim (Bool-cases (type == 24)) [
                                      | inl t ↦ rw t (
                                          after_value fuel _ s2
                                            (decode-Settles fuel s2 v2 (omega arith))
                                            (λ w s3 v3 l3.
                                              Settles-return stream some (binary (cbor w)) s3 v3))
                                      | inr f ↦ rw f (thrown-Settles stream some _ 0 s2 v2)
                                    ]))
                            | inr a6 ↦
                                rw (a0, a1, a2, a3, a4, a5, a6)
                                  (decode_simple-Settles stream (b % 32) s1 v1)
                          ]
                        ]
                      ]
                    ]
                  ]
                ]
              ])

      until_break-Settles :
          (fuel : ℕ) (vs : Values) (s : S)
          → stream.supply.Valid s
          → 2 * left s + 2 ≤ fuel
          → Settles stream some (decode_until_break r fuel vs s) 0 s
      until_break-Settles zero vs s v h = absurd (omega arith)
      until_break-Settles (suc fuel) vs s v h =
          after_value fuel _ s (decode-Settles fuel s v (omega arith)) (λ w s1 v1 l1.
            elim (Bool-cases (is_break w)) [
              | inl t ↦ rw t (Settles-return stream some vs s1 v1)
              | inr f ↦ rw f (until_break-Settles fuel (push_back vs w) s1 v1 (omega arith))
            ])

      values-Settles :
          (fuel i len : ℕ) (vs : Values) (s : S)
          → stream.supply.Valid s
          → 2 * left s + 2 ≤ fuel
          → Settles stream some (decode_values r fuel i len vs s) 0 s
      values-Settles zero i len vs s v h = absurd (omega arith)
      values-Settles (suc fuel) i len vs s v h = elim (Bool-cases (ltb i len)) [
        | inl t ↦ rw t (
            after_value fuel _ s (decode-Settles fuel s v (omega arith)) (λ w s1 v1 l1.
              values-Settles fuel ((i + 1) % 2 ^ 32) len (push_back vs w) s1 v1 (omega arith)))
        | inr f ↦ rw f (Settles-return stream some vs s v)
      ]

      members_until_break-Settles :
          (fuel : ℕ) (ms : Members) (s : S)
          → stream.supply.Valid s
          → 2 * left s + 2 ≤ fuel
          → Settles stream some (decode_members_until_break r fuel ms s) 0 s
      members_until_break-Settles zero ms s v h = absurd (omega arith)
      members_until_break-Settles (suc fuel) ms s v h =
          after_value fuel _ s (decode-Settles fuel s v (omega arith)) (λ key s1 v1 l1.
            elim (Bool-cases (is_break key)) [
              | inl t ↦ rw t (Settles-return stream some ms s1 v1)
              | inr f ↦ rw f (
                  with_key-Settles stream key _ 0 s1 v1 (λ k.
                    after_value fuel _ s1 (decode-Settles fuel s1 v1 (omega arith)) (λ w s2 v2 l2.
                      members_until_break-Settles fuel (put k w ms) s2 v2 (omega arith))))
            ])

      members-Settles :
          (fuel i len : ℕ) (ms : Members) (s : S)
          → stream.supply.Valid s
          → 2 * left s + 2 ≤ fuel
          → Settles stream some (decode_members r fuel i len ms s) 0 s
      members-Settles zero i len ms s v h = absurd (omega arith)
      members-Settles (suc fuel) i len ms s v h = elim (Bool-cases (ltb i len)) [
        | inl t ↦ rw t (
            after_value fuel _ s (decode-Settles fuel s v (omega arith)) (λ key s1 v1 l1.
              with_key-Settles stream key _ 0 s1 v1 (λ k.
                after_value fuel _ s1 (decode-Settles fuel s1 v1 (omega arith)) (λ w s2 v2 l2.
                  members-Settles fuel ((i + 1) % 2 ^ 32) len (put k w ms) s2 v2 (omega arith)))))
        | inr f ↦ rw f (Settles-return stream some ms s v)
      ]

-- The decoder comes to an end on every source: with two turns for each byte that is left and one
-- more, it returns a value and has taken a byte at least, or it throws, and never runs out of turns.
pub decode_ends :
    {S : Type 0} {r : Reader S} (stream : Stream r)
    → Texts stream
    → (fuel : ℕ) (s : S) → stream.supply.Valid s
    → 2 * length (stream.supply.rest s) + 1 ≤ fuel
    → ((v : Value) × (s' : S) × (decode r fuel s ≡ returned (some v) s')
        × stream.supply.Valid s'
        × (length (stream.supply.rest s') < length (stream.supply.rest s)))
      ⊎ ((e : Error) × (s' : S) × (decode r fuel s ≡ thrown e s') × stream.supply.Valid s')
decode_ends stream texts fuel s v h = elim (decode-Settles stream texts fuel s v h) [
  | inl (w, s1, e1, v1, l1) ↦ inl (w, s1, e1, v1, omega arith)
  | inr t ↦ inr t
]
