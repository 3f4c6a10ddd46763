-- ===== src/Gather/Data.antt =====
-- The bytes that a gather buffer holds, and what the calls of libs/gather/buffer.cc do to them.
use obtools.Common.{
  ℕ, zero, suc, ◌+◌, ◌-◌, ◌^◌, ◌≤◌, ◌<◌, ◌≡◌, refl, sym, ap, ◌∙◌, inl, inr, List, [], ◌∷◌, ◌++◌,
  length, length-append, take, drop, take-append, drop-all, length-take, ltb, ◌==◌, ltb→lt,
  Bool-cases, arith, add64_fits, sub64_fits,
}
use obtools.Channel.Supply.{drop-append_over}
use obtools.Gather.{
  Memory, Segment, Buffer, consume_segment, reset_segment, used_segments, total_length, span,
  consume_loop, consume,
}

-- The bytes of a row of segments, in order.
abbrev pub bytes : Memory → List Segment → List ℕ
bytes m [] = []
bytes m (seg ∷ segs) = span m seg.data_start seg.length ++ bytes m segs

abbrev pub lengths : List Segment → ℕ
lengths [] = 0
lengths (seg ∷ segs) = seg.length + lengths segs

-- Addresses and the sum of the lengths keep to 64 bits.
abbrev pub Placed : List Segment → Type 0
Placed [] = Unit {0}
Placed (seg ∷ segs) = (seg.data_start + seg.length < 2 ^ 64) × Placed segs

pub length-span : (m : Memory) (at n : ℕ) → length (span m at n) ≡ n
length-span m at zero = refl
length-span m at (suc n) = ap suc (length-span m (at + 1) n)

pub length-bytes : (m : Memory) (segs : List Segment) → length (bytes m segs) ≡ lengths segs
length-bytes m [] = refl
length-bytes m (seg ∷ segs) = omega (
  arith,
  length-append (span m seg.data_start seg.length) (bytes m segs),
  length-span m seg.data_start seg.length,
  length-bytes m segs,
)

pub take-span : (m : Memory) (at k n : ℕ) → k ≤ n → take k (span m at n) ≡ span m at k
take-span m at zero n h = refl
take-span m at (suc k) zero h = absurd (omega arith)
take-span m at (suc k) (suc n) h = ap (λ l. m at ∷ l) (take-span m (at + 1) k n (omega arith))

pub drop-span : (m : Memory) (at k n : ℕ) → drop k (span m at n) ≡ span m (at + k) (n - k)
drop-span m at zero n =
    let a : at + 0 ≡ at = omega arith in let b : n - 0 ≡ n = omega arith in rw (a, b) refl
drop-span m at (suc k) zero = let z : 0 - suc k ≡ 0 = omega arith in rw z refl
drop-span m at (suc k) (suc n) =
    let a : at + 1 + k ≡ at + suc k = omega arith in
    let b : n - k ≡ suc n - suc k = omega arith in
    drop-span m (at + 1) k n ∙ ap (λ x. span m x (n - k)) a ∙ ap (span m (at + suc k)) b

pub take-append_under :
    {A : Type 0} (n : ℕ) (xs ys : List A) → n ≤ length xs → take n (xs ++ ys) ≡ take n xs
take-append_under zero xs ys h = refl
take-append_under (suc n) [] ys h = absurd (omega arith)
take-append_under (suc n) (x ∷ xs) ys h = ap (λ l. x ∷ l) (take-append_under n xs ys (omega arith))

pub drop-append_under :
    (n : ℕ) (xs ys : List ℕ) → n ≤ length xs → drop n (xs ++ ys) ≡ drop n xs ++ ys
drop-append_under zero xs ys h = refl
drop-append_under (suc n) [] ys h = absurd (omega arith)
drop-append_under (suc n) (x ∷ xs) ys h = drop-append_under n xs ys (omega arith)

-- get_length() is the number of bytes, where that keeps to 64 bits.
total_length_lem :
    (total : ℕ) (segs : List Segment)
    → total + lengths segs < 2 ^ 64
    → total_length total segs ≡ total + lengths segs
unfolding total_length
total_length_lem total [] h = omega arith
total_length_lem total (seg ∷ segs) h =
    rw (add64_fits total seg.length (omega arith))
      (total_length_lem (total + seg.length) segs (omega arith) ∙ omega arith)

pub passed :
    (m : Memory) (n : ℕ) (seg : Segment) (segs : List Segment)
    → seg.length ≤ n
    → drop n (bytes m (seg ∷ segs)) ≡ drop (n - seg.length) (bytes m segs)
passed m n seg segs h =
    let len = length-span m seg.data_start seg.length in
    drop-append_over (span m seg.data_start seg.length) (bytes m segs) n (omega (arith, len))
    ∙ ap (λ k. drop (n - k) (bytes m segs)) len

length-consume_loop : (n : ℕ) (segs : List Segment) → length (consume_loop n segs) ≡ length segs
unfolding consume_loop
length-consume_loop n [] = refl
length-consume_loop n (seg ∷ segs) =
    let ih = length-consume_loop (n - seg.length) segs in ground arith

consume_loop-bytes :
    (m : Memory) (n : ℕ) (segs : List Segment)
    → Placed segs
    → bytes m (consume_loop n segs) ≡ drop n (bytes m segs)
unfolding consume_loop consume_segment reset_segment
consume_loop-bytes m n [] p = sym (drop-all [] n (omega arith))
consume_loop-bytes m n (seg ∷ segs) p =
    let len = length-span m seg.data_start seg.length in
    let ih = consume_loop-bytes m (n - seg.length) segs p.1 in
    elim (Bool-cases (seg.length == 0)) [
      | inl t ↦
          (let z : seg.length ≡ 0 = ground arith in
            rw t (
              ap (λ l. span m seg.data_start l ++ bytes m (consume_loop (n - seg.length) segs)) z
              ∙ ih
              ∙ sym (passed m n seg segs (omega arith))))
      | inr f ↦ elim (Bool-cases (ltb n seg.length)) [
        | inl t ↦
            (let lt = ltb→lt n seg.length t in
              rw
                (
                  f,
                  t,
                  add64_fits seg.data_start n (omega (arith, p.0)),
                  sub64_fits seg.length n (omega arith) (omega (arith, p.0)),
                )
                (ap (λ l. l ++ bytes m segs) (sym (drop-span m seg.data_start n seg.length))
                  ∙ sym (
                      drop-append_under n (span m seg.data_start seg.length) (bytes m segs)
                        (omega (arith, len)))))
        | inr g ↦ rw (f, g) (ih ∙ sym (passed m n seg segs (ground arith)))
      ]
    ]

-- consume takes its bytes off the front of the buffer, whatever segments they lie in, and leaves the
-- rest in place.
pub consume-bytes :
    (m : Memory) (n : ℕ) (b : Buffer)
    → Placed (used_segments b)
    → b.count ≤ length b.segments
    → bytes m (used_segments (consume n b)) ≡ drop n (bytes m (used_segments b))
unfolding consume
consume-bytes m n b p h =
    let len : length (consume_loop n (used_segments b)) ≡ b.count =
      length-consume_loop n (used_segments b) ∙ length-take b.count b.segments ∙ omega arith in
    ap (bytes m)
      (take-append (consume_loop n (used_segments b)) (drop b.count b.segments) b.count (sym len))
    ∙ consume_loop-bytes m n (used_segments b) p
