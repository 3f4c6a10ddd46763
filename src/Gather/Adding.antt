-- ===== src/Gather/Adding.antt =====
-- Buffer::add and Buffer::resize of libs/gather/buffer.cc.
use obtools.Common.{
  ℕ, zero, suc, ◌+◌, ◌-◌, ◌*◌, ◌%◌, ◌^◌, ◌≤◌, ◌<◌, ◌≡◌, refl, sym, ap, ◌∙◌, inl, inr, List, [], ◌∷◌,
  ◌++◌, append-nil, append_assoc, set, replicate, length, length-append, length-take, length-set,
  length-replicate, take, take-append, ltb, leb, ◌==◌, Bool-cases, false, if◌then◌else◌, arith,
  some,
}
use obtools.Gather.{
  Memory, Segment, Buffer, fresh_segment, used_segments, span, resize, extend, add,
}
use obtools.Gather.Data.{bytes}

bytes-append : (m : Memory) (xs ys : List Segment) → bytes m (xs ++ ys) ≡ bytes m xs ++ bytes m ys
bytes-append m [] ys = refl
bytes-append m (x ∷ xs) ys =
    ap (λ l. span m x.data_start x.length ++ l) (bytes-append m xs ys)
    ∙ sym (append_assoc (span m x.data_start x.length) (bytes m xs) (bytes m ys))

take-set :
    (n : ℕ) (xs : List Segment) (x : Segment)
    → n < length xs
    → take (n + 1) (set xs n x) ≡ take n xs ++ x ∷ []
take-set n [] x h = absurd (omega arith)
take-set zero (y ∷ xs) x h = refl
take-set (suc n) (y ∷ xs) x h =
    let e : suc n + 1 ≡ suc (n + 1) = omega arith in
    rw e (ap (λ l. y ∷ l) (take-set n xs x (omega arith)))

-- A buffer with room for one more segment, and the same segments in use.
abbrev Extended : Buffer → Buffer → Type 0
Extended b b' =
    (b'.count ≡ b.count) × (b.count < length b'.segments) × (used_segments b' ≡ used_segments b)

resize_lem :
    (n : ℕ) (b : Buffer)
    → b.count ≤ length b.segments
    → b.count < n
    → (b' : Buffer) × (resize n b ≡ some b') × Extended b b'
unfolding resize
resize_lem n b h lt =
    let f : ltb n b.count ≡ false = ground arith in
    let len : length (used_segments b) ≡ b.count = length-take b.count b.segments ∙ omega arith in
    let fresh = length-replicate (n - b.count) fresh_segment in
    (
      record b { segments = used_segments b ++ replicate (n - b.count) fresh_segment },
      rw f refl,
      (
        refl,
        omega (
          arith,
          length-append (used_segments b) (replicate (n - b.count) fresh_segment),
          len,
          fresh,
        ),
        take-append (used_segments b) (replicate (n - b.count) fresh_segment) b.count (sym len),
      ),
    )

extend_lem :
    (b : Buffer)
    → b.count ≤ length b.segments
    → length b.segments < 2 ^ 31
    → (b' : Buffer) × (extend b ≡ some b') × Extended b b'
unfolding extend
extend_lem b h small = elim (Bool-cases (leb (length b.segments) b.count)) [
  | inl t ↦ rw t (
      resize_lem (if length b.segments == 0 then 1 else length b.segments * 2 % 2 ^ 32) b h
        (ground arith))
  | inr f ↦ (b, rw f refl, (refl, ground arith, refl))
]

-- While the number of segments keeps to 31 bits, adding a segment to a buffer succeeds, full or not:
-- the buffer is one segment longer and holds the bytes of the segment behind its own.
pub add-bytes :
    (m : Memory) (seg : Segment) (b : Buffer)
    → b.count ≤ length b.segments
    → length b.segments < 2 ^ 31
    → (b' : Buffer) × (add seg b ≡ some b')
      × (b'.count ≡ b.count + 1)
      × (b'.count ≤ length b'.segments)
      × (bytes m (used_segments b') ≡ bytes m (used_segments b) ++ span m seg.data_start seg.length)
unfolding add
add-bytes m seg b h small =
    let (b1, e1, (c1, lt1, u1)) = extend_lem b h small in
    let here : b1.count < length b1.segments = omega (arith, c1, lt1) in
    let next : (b1.count + 1) % 2 ^ 32 ≡ b1.count + 1 = omega (arith, c1) in
    (
      record { segments = set b1.segments b1.count seg; count = (b1.count + 1) % 2 ^ 32 },
      rw e1 refl,
      omega (arith, next, c1),
      omega (arith, next, length-set b1.segments b1.count seg),
      ap (λ k. bytes m (take k (set b1.segments b1.count seg))) next
          ∙ ap (bytes m) (take-set b1.count b1.segments seg here)
          ∙ bytes-append m (used_segments b1) (seg ∷ [])
          ∙ ap (λ s. bytes m s ++ (span m seg.data_start seg.length ++ [])) u1
          ∙ ap (λ l. bytes m (used_segments b) ++ l)
              (append-nil (span m seg.data_start seg.length)),
    )
