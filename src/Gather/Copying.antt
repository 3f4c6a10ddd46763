-- ===== src/Gather/Copying.antt =====
-- Buffer::copy of libs/gather/buffer.cc.
use obtools.Common.{
  ℕ, ◌+◌, ◌-◌, ◌^◌, ◌≤◌, ◌<◌, ◌≡◌, refl, sym, ap, ◌∙◌, inl, inr, List, [], ◌∷◌, ◌++◌, append-nil,
  take, drop, take-all, drop-all, min, ltb, leb, lt→ltb, leb-true, Bool, Bool-cases, true, false,
  if◌then◌else◌, ◌&&◌, arith, add64_fits,
}
use obtools.Channel.Supply.{take-append_over}
use obtools.Gather.{Memory, Segment, Buffer, used_segments, span, part, copy_loop, copy}
use obtools.Gather.Data.{
  bytes, lengths, length-span, take-span, drop-span, take-append_under, drop-append_under, passed,
}

pub part-min : (wanted start len : ℕ) → part wanted start len ≡ min wanted (len - start)
part-min wanted start len = ground arith

-- One segment's part of a copy of `n` bytes, and what follows it.
pub segment_part :
    (m : Memory) (at len n : ℕ) (more : List ℕ)
    → take n (span m at len ++ more) ≡ span m at (min n len) ++ take (n - len) more
segment_part m at len n more = elim (Bool-cases (ltb len n)) [
  | inl t ↦
      (let e : min n len ≡ len = ground arith in
        rw e (
          take-append_over (span m at len) more n (ground (arith, length-span m at len))
          ∙ ap (λ k. span m at len ++ take (n - k) more) (length-span m at len)))
  | inr f ↦
      (let e : min n len ≡ n = ground arith in
        let z : n - len ≡ 0 = ground arith in
        rw (e, z)
          (take-append_under n (span m at len) more (ground (arith, length-span m at len))
            ∙ take-span m at n len (ground arith)
            ∙ sym (append-nil (span m at n))))
]

zero_more : (a : ℕ) → a + 0 ≡ a
zero_more a = omega arith

no_start :
    (offset gathered : ℕ)
    → offset ≤ gathered
    → (if ltb offset gathered then 0 else offset - gathered) ≡ 0
no_start offset gathered h = ground arith

amount_inside :
    (offset gathered wanted n : ℕ)
    → offset ≤ gathered
    → (if ltb offset (gathered + n) then part wanted 0 n else 0) ≡ min wanted n
amount_inside offset gathered wanted n h = ground arith

stop_inside :
    (offset gathered n len got : ℕ)
    → offset ≤ gathered
    → got < len
    → (ltb offset (gathered + n) && leb len (got + min (len - got) n)) ≡ leb (len - got) n
stop_inside offset gathered n len got h k = elim (Bool-cases (leb (len - got) n)) [
  | inl t ↦
      rw
        (
          t,
          lt→ltb offset (gathered + n) (ground arith),
          leb-true len (got + min (len - got) n) (ground arith),
        )
        refl
  | inr f ↦
      (let e : leb len (got + min (len - got) n) ≡ false = ground arith in
        rw (e, f) (and_false (ltb offset (gathered + n))))
]
  where
    and_false : (b : Bool) → (b && false) ≡ false
    and_false true = refl
    and_false false = refl

-- Once the loop has reached the offset it copies from the start of each segment.
copy_loop-inside :
    (m : Memory) (offset len gathered got : ℕ) (segs : List Segment)
    → offset ≤ gathered
    → got < len
    → gathered + lengths segs < 2 ^ 64
    → copy_loop m offset len gathered got segs ≡ take (len - got) (bytes m segs)
unfolding copy_loop
copy_loop-inside m offset len gathered got [] h k fits = sym (take-all [] (len - got) (omega arith))
copy_loop-inside m offset len gathered got (seg ∷ segs) h k fits =
    let n = len - got in
    let rest =
      copy_loop-inside m offset len (gathered + seg.length) (got + min n seg.length) segs in
    rw
      (
        add64_fits gathered seg.length (omega arith),
        no_start offset gathered h,
        zero_more seg.data_start,
        amount_inside offset gathered n seg.length h,
        stop_inside offset gathered seg.length len got h k,
      )
      (elim (Bool-cases (leb n seg.length)) [
        | inl t ↦
            (let z : n - seg.length ≡ 0 = ground arith in
              rw t (
                sym (
                  segment_part m seg.data_start seg.length n (bytes m segs)
                  ∙ ap (λ j. span m seg.data_start (min n seg.length) ++ take j (bytes m segs)) z)))
        | inr f ↦
            (let j : len - (got + min n seg.length) ≡ n - seg.length = ground arith in
              rw f (
                ap (λ l. span m seg.data_start (min n seg.length) ++ l)
                  (rest (omega arith) (ground arith) (omega arith)
                    ∙ ap (λ i. take i (bytes m segs)) j)
                ∙ sym (segment_part m seg.data_start seg.length n (bytes m segs))))
      ])

before_start :
    (offset gathered : ℕ)
    → gathered ≤ offset
    → (if ltb offset gathered then 0 else offset - gathered) ≡ offset - gathered
before_start offset gathered h = ground arith

-- Before that it passes over what lies in front of the offset.
copy_loop-before :
    (m : Memory) (offset len gathered : ℕ) (segs : List Segment)
    → gathered ≤ offset
    → 0 < len
    → gathered + lengths segs < 2 ^ 64
    → copy_loop m offset len gathered 0 segs ≡ take len (drop (offset - gathered) (bytes m segs))
unfolding copy_loop
copy_loop-before m offset len gathered [] h k fits =
    sym (
      ap (take len) (drop-all [] (offset - gathered) (omega arith)) ∙ take-all [] len (omega arith))
copy_loop-before m offset len gathered (seg ∷ segs) h k fits =
    let size = length-span m seg.data_start seg.length in
    let start = offset - gathered in
    let at = seg.data_start + start in
    let here = seg.length - start in
    let ih = copy_loop-before m offset len (gathered + seg.length) segs in
    rw (add64_fits gathered seg.length (omega arith), before_start offset gathered h)
      (elim (Bool-cases (ltb offset (gathered + seg.length))) [
        | inr f ↦
            (let j : offset - (gathered + seg.length) ≡ start - seg.length = omega arith in
              rw f (
                ih (ground arith) k (omega arith)
                ∙ ap (λ i. take len (drop i (bytes m segs))) j
                ∙ ap (take len) (sym (passed m start seg segs (ground arith)))))
        | inl t ↦
            (let n0 : len - 0 ≡ len = omega arith in
              let a0 : 0 + min len here ≡ min len here = omega arith in
              let skip : drop start (span m seg.data_start seg.length ++ bytes m segs)
                  ≡ span m at here ++ bytes m segs =
                drop-append_under start (span m seg.data_start seg.length) (bytes m segs)
                  (ground (arith, size))
                ∙ ap (λ l. l ++ bytes m segs) (drop-span m seg.data_start start seg.length) in
              rw
                (
                  t,
                  n0,
                  part-min len start seg.length,
                  a0,
                  skip,
                  segment_part m at here len (bytes m segs),
                )
                (elim (Bool-cases (leb len (min len here))) [
                  | inl g ↦ (let z : len - here ≡ 0 = ground arith in rw (g, z) refl)
                  | inr g ↦
                      (let j : len - min len here ≡ len - here = ground arith in
                        rw g (
                          ap (λ l. span m at (min len here) ++ l)
                            (copy_loop-inside m offset len (gathered + seg.length) (min len here)
                                segs (ground arith) (ground arith) (omega arith)
                              ∙ ap (λ i. take i (bytes m segs)) j)))
                ]))
      ])

-- copy hands over the `len` bytes from the offset on, or as many of them as there are.
pub copy_lem :
    (m : Memory) (offset len : ℕ) (b : Buffer)
    → 0 < len
    → lengths (used_segments b) < 2 ^ 64
    → copy m offset len b ≡ take len (drop offset (bytes m (used_segments b)))
unfolding copy
copy_lem m offset len b k fits =
    let z : offset - 0 ≡ offset = omega arith in
    copy_loop-before m offset len 0 (used_segments b) (omega arith) k (omega arith)
    ∙ ap (λ i. take len (drop i (bytes m (used_segments b)))) z
