-- ===== src/Gather/Flattening.antt =====
-- Buffer::get_flat_data of libs/gather/ot-gather.h and get_flat_data_multi of buffer.cc.
use obtools.Common.{
  ℕ, ◌+◌, ◌-◌, ◌^◌, ◌≤◌, ◌<◌, ◌≡◌, refl, sym, ap, ◌∙◌, inl, inr, List, [], ◌∷◌, ◌++◌, append-nil,
  append_assoc, length, length-append, take, drop, take-append, length-drop, min, ltb, leb, ◌==◌,
  ltb→lt, Bool-cases, true, false, if◌then◌else◌, arith, add64_fits, Option, none, some,
}
use obtools.Channel.Supply.{take-append_over}
use obtools.Gather.{
  Memory, Segment, Buffer, used_segments, span, Flat, direct, temp_buf, flatten,
  get_flat_data_multi, get_flat_data_single, get_flat_data,
}
use obtools.Gather.Data.{
  bytes, length-span, take-span, drop-span, take-append_under, drop-append_under, passed,
}
use obtools.Gather.Copying.{part-min}

-- The bytes that a caller finds at the pointer.
abbrev pub found : Memory → ℕ → Option Flat → Option (List ℕ)
found m n none = none
found m n (some (direct at)) = some (span m at n)
found m n (some (temp_buf bs)) = some (take n bs)

-- `n` bytes from an offset, if there are as many.
abbrev pub wanted_bytes : ℕ → ℕ → List ℕ → Option (List ℕ)
wanted_bytes offset n bs =
    if ltb (length bs) (offset + n) then none else some (take n (drop offset bs))

wanted_enough : (n : ℕ) (bs : List ℕ) → n ≤ length bs → wanted_bytes 0 n bs ≡ some (take n bs)
wanted_enough n bs h = let f : ltb (length bs) (0 + n) ≡ false = ground arith in rw f refl

-- A piece that is cut where the count is reached is as good as the whole.
wanted_cut :
    (m : Memory) (n at len : ℕ) (copied more : List ℕ)
    → length copied < n
    → wanted_bytes 0 n (copied ++ span m at (min (n - length copied) len) ++ more)
      ≡ wanted_bytes 0 n (copied ++ (span m at len ++ more))
wanted_cut m n at len copied more h = elim (Bool-cases (leb len (n - length copied))) [
  | inl t ↦
      (let e : min (n - length copied) len ≡ len = ground arith in
        rw e (ap (wanted_bytes 0 n) (append_assoc copied (span m at len) more)))
  | inr f ↦
      (let k = n - length copied in
        let e : min k len ≡ k = ground arith in
        let cut = length-span m at k in
        let whole = length-span m at len in
        let full : n ≡ length (copied ++ span m at k) =
          omega (arith, length-append copied (span m at k), cut) in
        rw e (
          wanted_enough n (copied ++ span m at k ++ more)
            (omega (arith, full, length-append (copied ++ span m at k) more))
          ∙ ap some (
              take-append (copied ++ span m at k) more n full
              ∙ sym (
                  take-append_over copied (span m at len ++ more) n (omega arith)
                  ∙ ap (λ l. copied ++ l)
                      (take-append_under k (span m at len) more (ground (arith, whole))
                        ∙ take-span m at k len (ground arith))))
          ∙ sym (
              wanted_enough n (copied ++ (span m at len ++ more)) (
                ground (
                  arith,
                  whole,
                  length-append copied (span m at len ++ more),
                  length-append (span m at len) more,
                )))))
]

minus_zero : (n : ℕ) → n - 0 ≡ n
minus_zero n = omega arith

flatten_lem :
    (m : Memory) (n : ℕ) (copied : List ℕ) (segs : List Segment)
    → found m n (flatten m n copied segs) ≡ wanted_bytes 0 n (copied ++ bytes m segs)
unfolding flatten
flatten_lem m n copied [] =
    rw (append-nil copied, zero_and n)
      (elim (Bool-cases (ltb (length copied) n)) [ inl t ↦ rw t refl | inr f ↦ rw f refl ])
  where
    zero_and : (n : ℕ) → 0 + n ≡ n
    zero_and n = omega arith
flatten_lem m n copied (seg ∷ segs) = elim (Bool-cases (ltb (length copied) n)) [
  | inl t ↦
      (let lt = ltb→lt (length copied) n t in
        rw (t, part-min (n - length copied) 0 seg.length, minus_zero seg.length)
          (flatten_lem m n (copied ++ span m seg.data_start (min (n - length copied) seg.length))
              segs
            ∙ wanted_cut m n seg.data_start seg.length copied (bytes m segs) lt))
  | inr f ↦ rw f (
      ap some (
        sym (
          take-append_under n copied (span m seg.data_start seg.length ++ bytes m segs)
            (ground arith)))
      ∙ sym (
          wanted_enough n (copied ++ (span m seg.data_start seg.length ++ bytes m segs)) (
            ground
              (arith, length-append copied (span m seg.data_start seg.length ++ bytes m segs)))))
]

wanted_drop :
    (offset n : ℕ) (bs : List ℕ)
    → 0 < n
    → wanted_bytes offset n bs ≡ wanted_bytes 0 n (drop offset bs)
wanted_drop offset n bs pos = elim (Bool-cases (ltb (length bs) (offset + n))) [
  | inl t ↦
      (let u : ltb (length (drop offset bs)) (0 + n) ≡ true =
          ground (arith, length-drop offset bs) in
        rw (t, u) refl)
  | inr f ↦
      (let u : ltb (length (drop offset bs)) (0 + n) ≡ false =
          ground (arith, length-drop offset bs) in
        rw (f, u) refl)
]

-- What lies behind an offset in the first segment.
drop-segment :
    (m : Memory) (offset : ℕ) (seg : Segment) (segs : List Segment)
    → offset ≤ seg.length
    → drop offset (bytes m (seg ∷ segs))
      ≡ span m (seg.data_start + offset) (seg.length - offset) ++ bytes m segs
drop-segment m offset seg segs h =
    drop-append_under offset (span m seg.data_start seg.length) (bytes m segs)
      (omega (arith, length-span m seg.data_start seg.length))
    ∙ ap (λ l. l ++ bytes m segs) (drop-span m seg.data_start offset seg.length)

multi_lem :
    (m : Memory) (offset n : ℕ) (segs : List Segment)
    → 0 < n
    → offset + n < 2 ^ 64
    → found m n (get_flat_data_multi m offset n segs) ≡ wanted_bytes offset n (bytes m segs)
unfolding get_flat_data_multi
multi_lem m offset n [] pos fits = let t : ltb 0 (offset + n) ≡ true = ground arith in rw t refl
multi_lem m offset n (seg ∷ segs) pos fits =
    let whole = bytes m (seg ∷ segs) in
    let back = span m (seg.data_start + offset) (seg.length - offset) in
    let size = length-span m (seg.data_start + offset) (seg.length - offset) in
    let ih = multi_lem m (offset - seg.length) n segs pos (omega arith) in
    elim (Bool-cases (ltb offset seg.length)) [
      | inl t ↦
          (let lt = ltb→lt offset seg.length t in
            let shift : wanted_bytes offset n whole ≡ wanted_bytes 0 n (back ++ bytes m segs) =
              wanted_drop offset n whole pos
              ∙ ap (wanted_bytes 0 n) (drop-segment m offset seg segs (omega arith)) in
            elim (Bool-cases (ltb (offset + n) seg.length)) [
              | inl u ↦
                  (let small = ltb→lt (offset + n) seg.length u in
                    rw (t, add64_fits offset n fits, u)
                      (ap some (
                          sym (
                            take-append_under n back (bytes m segs) (omega (arith, size))
                            ∙ take-span m (seg.data_start + offset) n (seg.length - offset)
                                (omega arith)))
                        ∙ sym (
                            wanted_enough n (back ++ bytes m segs)
                              (omega (arith, size, length-append back (bytes m segs))))
                        ∙ sym shift))
              | inr u ↦ rw (t, add64_fits offset n fits, u) (flatten_lem m n back segs ∙ sym shift)
            ])
      | inr f ↦ rw f (
          ih
          ∙ wanted_drop (offset - seg.length) n (bytes m segs) pos
          ∙ ap (wanted_bytes 0 n) (sym (passed m offset seg segs (ground arith)))
          ∙ sym (wanted_drop offset n whole pos))
    ]

single_lem :
    (m : Memory) (offset n : ℕ) (segs : List Segment)
    → 0 < n
    → offset + n < 2 ^ 64
    → found m n (get_flat_data_single offset n segs) ≡ wanted_bytes offset n (bytes m (take 1 segs))
unfolding get_flat_data_single
single_lem m offset n [] pos fits = let t : ltb 0 (offset + n) ≡ true = ground arith in rw t refl
single_lem m offset n (seg ∷ segs) pos fits =
    let size = length-span m seg.data_start seg.length in
    rw (add64_fits offset n fits, append-nil (span m seg.data_start seg.length), size)
      (elim (Bool-cases (ltb seg.length (offset + n))) [
        | inl t ↦ rw t refl
        | inr f ↦ rw f (
            ap some (
              sym (
                ap (take n) (drop-span m seg.data_start offset seg.length)
                ∙ take-span m (seg.data_start + offset) n (seg.length - offset) (ground arith))))
      ])

-- For a count that is not 0 and an offset whose sum with it keeps to 64 bits, get_flat_data gives a
-- pointer to the bytes from the offset on where the buffer has as many, in the segment itself or
-- gathered from several, and the null pointer where it has not; the short way for a buffer of one
-- segment agrees with the long one.
pub get_flat_data_lem :
    (m : Memory) (offset n : ℕ) (b : Buffer)
    → 0 < n
    → offset + n < 2 ^ 64
    → found m n (get_flat_data m offset n b) ≡ wanted_bytes offset n (bytes m (used_segments b))
unfolding get_flat_data
get_flat_data_lem m offset n b pos fits = elim (Bool-cases (b.count == 1)) [
  | inl t ↦
      (let one : b.count ≡ 1 = ground arith in
        rw t (
          single_lem m offset n b.segments pos fits
          ∙ ap (λ k. wanted_bytes offset n (bytes m (take k b.segments))) (sym one)))
  | inr f ↦ rw f (multi_lem m offset n (used_segments b) pos fits)
]
