-- ===== src/Channel/Settling.antt =====
-- Calls on a reader that come to an end, whatever the source holds: libs/chan/reader.cc.
use obtools.Common.{
  ℕ, ◌+◌, ◌≤◌, ◌<◌, ◌≡◌, refl, ap, ◌⊎◌, inl, inr, length, length-drop, take, ltb, ltb→lt,
  Bool-cases, arith,
}
use obtools.Channel.{
  Bytes, Error, eof_in_string, Action, Outcome, returned, thrown, ◌>>=◌, return, Reader,
}
use obtools.Channel.Reading.{read, read_string, read_byte, read_nbo_16, read_nbo_32, read_nbo_64}
use obtools.Channel.Streams.{Stream, read-exact, read-short}
use obtools.Channel.Texts.{Texts}

module _ {S : Type 0} {r : Reader S} (stream : Stream r) where
  -- The outcome is a value of the given form, with `k` bytes gone at least, or an exception.
  abbrev pub Settles : {A B : Type 0} → (A → B) → Outcome S B → ℕ → S → Type 0
  Settles {A} made out k s =
      ((a : A) × (s' : S) × (out ≡ returned (made a) s')
        × stream.supply.Valid s'
        × (length (stream.supply.rest s') + k ≤ length (stream.supply.rest s)))
      ⊎ ((e : Error) × (s' : S) × (out ≡ thrown e s') × stream.supply.Valid s')

  pub Settles->>= :
      {A B C D : Type 0} (made : A → B) (built : C → D) (m : Action S B) (f : B → Action S D)
      (k j : ℕ) (s : S)
      → Settles made (m s) k s
      → ((a : A) (s' : S)
          → stream.supply.Valid s'
          → length (stream.supply.rest s') + k ≤ length (stream.supply.rest s)
          → Settles built (f (made a) s') j s')
      → Settles built ((m >>= f) s) (k + j) s
  Settles->>= made built m f k j s (inl (a, s1, e1, v1, l1)) next = elim (next a s1 v1 l1) [
    | inl (c, s2, e2, v2, l2) ↦ inl (c, s2, rw e1 e2, v2, omega arith)
    | inr (e, s2, e2, v2) ↦ inr (e, s2, rw e1 e2, v2)
  ]
  Settles->>= made built m f k j s (inr (e, s1, e1, v1)) next = inr (e, s1, rw e1 refl, v1)

  pub Settles-return :
      {A B : Type 0} (made : A → B) (a : A) (s : S)
      → stream.supply.Valid s
      → Settles made (returned (made a) s) 0 s
  Settles-return made a s v = inl (a, s, refl, v, omega arith)

  pub Settles-weaken :
      {A B : Type 0} (made : A → B) (out : Outcome S B) (k j : ℕ) (s : S)
      → j ≤ k
      → Settles made out k s
      → Settles made out j s
  Settles-weaken made out k j s h (inl (a, s1, e1, v1, l1)) = inl (a, s1, e1, v1, omega arith)
  Settles-weaken made out k j s h (inr t) = inr t

  pub read-Settles :
      (count : ℕ) (s : S)
      → stream.supply.Valid s
      → 0 < count
      → Settles (λ bs. bs) (read r count s) count s
  read-Settles count s v pos = elim (Bool-cases (ltb (length (stream.supply.rest s)) count)) [
    | inl t ↦
        (let (s1, e1, v1, r1) = read-short stream count s v (ltb→lt _ count t) in
          inr (_, s1, e1, v1))
    | inr f ↦
        (let h : count ≤ length (stream.supply.rest s) = ground arith in
          let (s1, e1, v1, r1) = read-exact stream count s v pos h in
          inl
            (_, s1, e1, v1, omega (arith, ap length r1, length-drop count (stream.supply.rest s))))
  ]

  number-Settles :
      (count : ℕ) (f : Bytes → ℕ) (s : S)
      → stream.supply.Valid s
      → 0 < count
      → Settles (λ n. n) ((read r count >>= λ bs. return (f bs)) s) count s
  number-Settles count f s v pos =
      Settles-weaken (λ n. n) _ (count + 0) count s (omega arith)
        (Settles->>= (λ bs. bs) (λ n. n) (read r count) (λ bs. return (f bs)) count 0 s
          (read-Settles count s v pos) (λ bs s' v' l. Settles-return (λ n. n) (f bs) s' v'))

  pub read_byte-Settles : (s : S) → stream.supply.Valid s → Settles (λ n. n) (read_byte r s) 1 s
  unfolding read_byte
  read_byte-Settles s v = number-Settles 1 _ s v (omega arith)

  pub read_nbo_16-Settles : (s : S) → stream.supply.Valid s → Settles (λ n. n) (read_nbo_16 r s) 2 s
  unfolding read_nbo_16
  read_nbo_16-Settles s v = number-Settles 2 _ s v (omega arith)

  pub read_nbo_32-Settles : (s : S) → stream.supply.Valid s → Settles (λ n. n) (read_nbo_32 r s) 4 s
  unfolding read_nbo_32
  read_nbo_32-Settles s v = number-Settles 4 _ s v (omega arith)

  pub read_nbo_64-Settles : (s : S) → stream.supply.Valid s → Settles (λ n. n) (read_nbo_64 r s) 4 s
  unfolding read_nbo_64
  read_nbo_64-Settles s v =
      Settles->>= (λ n. n) (λ n. n) (read_nbo_32 r) _ 4 0 s (read_nbo_32-Settles s v)
        (λ n s1 v1 l1.
          Settles-weaken (λ n. n) _ 4 0 s1 (omega arith)
            (Settles->>= (λ n. n) (λ n. n) (read_nbo_32 r) _ 4 0 s1 (read_nbo_32-Settles s1 v1)
              (λ k s2 v2 l2. Settles-return (λ n. n) _ s2 v2)))

  pub read_string-Settles :
      Texts stream
      → (count : ℕ) (s : S) → stream.supply.Valid s
      → Settles (λ bs. bs) (read_string r count s) 0 s
  unfolding read_string
  read_string-Settles texts count s v =
      elim (Bool-cases (ltb (length (stream.supply.rest s)) count)) [
        | inl t ↦
            (let (s1, e1, v1, r1) = texts.text_short count s v (ltb→lt _ count t) in
              elim e1 [
                | inl h ↦ inr (eof_in_string, s1, rw h refl, v1)
                | inr h ↦ inr (eof_in_string, s1, rw h refl, v1)
              ])
        | inr f ↦
            (let h : count ≤ length (stream.supply.rest s) = ground arith in
              let (s1, e1, v1, r1) = texts.text_exact count s v h in
              inl (
                take count (stream.supply.rest s),
                s1,
                rw e1 refl,
                v1,
                omega (arith, ap length r1, length-drop count (stream.supply.rest s)),
              ))
      ]
