-- ===== src/Channel/Limits.antt =====
-- LimitedReader of libs/chan/ot-chan.h: what it lets through.
use obtools.Common.{
  ℕ, zero, suc, ◌+◌, ◌-◌, ◌^◌, ◌≤◌, ◌<◌, ◌≡◌, refl, ap, ◌∙◌, ◌⊎◌, inl, inr, [], ◌∷◌, min, length,
  length-take, length-drop, take, drop, ◌==◌, Bool-cases, arith, add64, sub64_fits, none, some,
  false,
}
use obtools.Channel.{Bytes, returned, ◌>>◌, Reader}
use obtools.Channel.Limited.{
  LimitedReader, limited_basic_read, limited_try_read, limited_reader, limited_skip_to_eof,
}
use obtools.Channel.Supply.{Supply, take-append_over}
use obtools.Channel.Streams.{
  Stream, Ends, base_try_read-exact, base_try_read-short, base_try_read-finished,
}
use obtools.Channel.Sources.{bounded_min, min_reads}

take-take : (m n : ℕ) (xs : Bytes) → m ≤ n → take m (take n xs) ≡ take m xs
take-take zero n xs h = refl
take-take (suc m) zero xs h = absurd (omega arith)
take-take (suc m) (suc n) [] h = refl
take-take (suc m) (suc n) (x ∷ xs) h = ap (λ t. x ∷ t) (take-take m n xs (omega arith))

limit_reads :
    (bs rest : Bytes) (left count : ℕ)
    → (0 < length bs) ⊎ (min left count ≡ 0) ⊎ (length rest ≡ 0)
    → (0 < length bs) ⊎ (count ≡ 0) ⊎ (length (take left rest) ≡ 0)
limit_reads bs rest left count (inl p) = inl p
limit_reads bs rest left count (inr (inr z)) = inr (inr (omega (arith, length-take left rest)))
limit_reads bs rest left count (inr (inl z)) = elim (min_reads left count) [
  | inl p ↦ absurd (omega arith)
  | inr (inl c) ↦ inr (inl c)
  | inr (inr c) ↦ inr (inr (omega (arith, length-take left rest)))
]

module _ {S : Type 0} {r : Reader S} (stream : Stream r) where
  abbrev LimitedValid : LimitedReader S → Type 0
  LimitedValid l = stream.supply.Valid l.reader × (l.left < 2 ^ 64)

  abbrev within : LimitedReader S → Bytes
  within l = take l.left (stream.supply.rest l.reader)

  pub limited_supply : Supply (limited_basic_read r)
  unfolding limited_basic_read
  limited_supply = record {
    Valid = LimitedValid;
    rest = within;
    reads = λ count l v.
        let (bs, s1, e1, v1, r1, le, nz) = stream.supply.reads (min l.left count) l.reader v.0 in
        (
          bs,
          record { reader = s1; left = l.left - length bs; offset = add64 l.offset (length bs) },
          rw (bounded_min l.left count, e1, sub64_fits l.left (length bs) (omega arith) v.1) refl,
          (v1, omega arith),
          ap (take l.left) r1 ∙ take-append_over bs (stream.supply.rest s1) l.left (omega arith),
          omega arith,
          limit_reads bs (stream.supply.rest l.reader) l.left count nz,
        );
  }

  some_left : (l : LimitedReader S) → 0 < length (within l) → (l.left == 0) ≡ false
  some_left l h = let len = length-take l.left (stream.supply.rest l.reader) in ground arith

  limited_none :
      (count : ℕ) (l : LimitedReader S)
      → LimitedValid l
      → 0 < count
      → within l ≡ []
      → Ends limited_supply (limited_try_read r count l) (returned none)
  unfolding limited_try_read limited_supply
  limited_none count l v pos nil = elim (Bool-cases (l.left == 0)) [
    | inl t ↦ (l, rw t refl, v, nil)
    | inr f ↦
        (let (l1, e1, v1, r1) = base_try_read-finished limited_supply count l v pos nil in
          (l1, rw f e1, v1, r1))
  ]

  -- A reader of at most so many bytes is a reader of the first of them.
  pub limited_stream : Stream (limited_reader r)
  unfolding limited_reader limited_try_read limited_supply
  limited_stream = record {
    supply = limited_supply;
    exact = λ count l v pos h.
        rw (some_left l (omega arith)) (base_try_read-exact limited_supply count l v h);
    short = λ count l v h pos.
        rw (some_left l pos) (base_try_read-short limited_supply count l v h pos);
    finished = limited_none;
  }

  -- After skip_to_eof on a limited reader that had bytes left, where the skip of the reader below it
  -- does what it should, the limit still stands at its old count: the next read hands over bytes
  -- from beyond it.
  pub skip_to_eof_beyond :
      (count : ℕ) (l : LimitedReader S) (s1 : S)
      → LimitedValid l
      → r.skip l.left l.reader ≡ returned tt s1
      → stream.supply.Valid s1
      → stream.supply.rest s1 ≡ drop l.left (stream.supply.rest l.reader)
      → 0 < count
      → count ≤ l.left
      → l.left + count ≤ length (stream.supply.rest l.reader)
      → (l2 : LimitedReader S) × ((limited_skip_to_eof r >> limited_try_read r count) l
          ≡ returned (some (take count (drop l.left (stream.supply.rest l.reader)))) l2)
  unfolding limited_skip_to_eof limited_supply limited_stream limited_reader
  skip_to_eof_beyond count l s1 v skips v1 r1 pos le long =
      let l1 = record l { reader = s1 } in
      let f : (l.left == 0) ≡ false = ground arith in
      let len : length (within l1) ≡ min l.left (length (stream.supply.rest s1)) =
        length-take l.left (stream.supply.rest s1) in
      let more : length (stream.supply.rest s1) ≡ length (stream.supply.rest l.reader) - l.left =
        ap length r1 ∙ length-drop l.left (stream.supply.rest l.reader) in
      let (l2, e2, v2, w2) = limited_stream.exact count l1 (v1, v.1) pos (omega arith) in
      (
        l2,
        rw (f, skips)
            (e2
              ∙ ap (λ bs. returned (some bs) l2)
                  (take-take count l.left (stream.supply.rest s1) le ∙ ap (take count) r1)),
      )
