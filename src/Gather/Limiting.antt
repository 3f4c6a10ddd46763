-- ===== src/Gather/Limiting.antt =====
-- Buffer::limit of libs/gather/buffer.cc.
use obtools.Common.{
  ℕ, suc, ◌+◌, ◌-◌, ◌^◌, ◌≤◌, ◌<◌, ◌≡◌, refl, sym, ap, ◌∙◌, inl, inr, List, [], ◌∷◌, ◌++◌,
  append-nil, map, length, take, drop, take-all, min, leb, Bool-cases, arith, add64, add64_fits,
  sub64_fits,
}
use obtools.Channel.Supply.{take-append_over}
use obtools.Gather.{Memory, Segment, Buffer, destroy, used_segments, span, limit_loop, limit}
use obtools.Gather.Data.{bytes, lengths, length-span, take-span, take-append_under}

length-map-destroy : (segs : List Segment) → length (map destroy segs) ≡ length segs
length-map-destroy [] = refl
length-map-destroy (seg ∷ segs) = ap suc (length-map-destroy segs)

length-limit_loop :
    (bound total : ℕ) (segs : List Segment)
    → (length ((limit_loop bound total segs).segments) ≡ length segs)
      × ((limit_loop bound total segs).kept ≤ length segs)
unfolding limit_loop
length-limit_loop bound total [] = (refl, omega arith)
length-limit_loop bound total (seg ∷ segs) =
    let ih = length-limit_loop bound (add64 total seg.length) segs in
    elim (Bool-cases (leb bound (add64 total seg.length))) [
      | inl t ↦ rw t (ap suc (length-map-destroy segs), omega arith)
      | inr f ↦ rw f (ap suc ih.0, omega (arith, ih.1))
    ]

limit_loop-bytes :
    (m : Memory) (bound total : ℕ) (segs : List Segment)
    → total ≤ bound
    → total + lengths segs < 2 ^ 64
    → (bytes m (take ((limit_loop bound total segs).kept) ((limit_loop bound total segs).segments))
        ≡ take (bound - total) (bytes m segs))
      × ((limit_loop bound total segs).total ≡ min bound (total + lengths segs))
unfolding limit_loop
limit_loop-bytes m bound total [] h fits =
    (sym (take-all [] (bound - total) (omega arith)), omega arith)
limit_loop-bytes m bound total (seg ∷ segs) h fits =
    let sum = add64_fits total seg.length (omega arith) in
    let len = length-span m seg.data_start seg.length in
    elim (Bool-cases (leb bound (total + seg.length))) [
      | inl t ↦
          (let over : bound ≤ total + seg.length = ground arith in
            let cut : seg.length - (total + seg.length - bound) ≡ bound - total = omega arith in
            rw
              (
                sum,
                t,
                sub64_fits (total + seg.length) bound over (omega arith),
                sub64_fits seg.length (total + seg.length - bound) (omega arith) (omega arith),
                cut,
              )
              (
                append-nil (span m seg.data_start (bound - total))
                    ∙ sym (take-span m seg.data_start (bound - total) seg.length (omega arith))
                    ∙ sym (
                        take-append_under (bound - total) (span m seg.data_start seg.length)
                          (bytes m segs) (omega (arith, len))),
                omega arith,
              ))
      | inr f ↦
          (let under : total + seg.length < bound = ground arith in
            let ih =
              limit_loop-bytes m bound (total + seg.length) segs (omega arith) (omega arith) in
            let k : bound - (total + seg.length)
                ≡ bound - total - length (span m seg.data_start seg.length) =
              omega (arith, len) in
            rw (sum, f)
              (
                ap (λ l. span m seg.data_start seg.length ++ l)
                      (ih.0 ∙ ap (λ n. take n (bytes m segs)) k)
                    ∙ sym (
                        take-append_over (span m seg.data_start seg.length) (bytes m segs)
                          (bound - total) (omega (arith, len))),
                ih.1 ∙ omega arith,
              ))
    ]

-- limit leaves the first `bound` bytes of the buffer, or all of them where there are no more, and
-- returns how many are left.
pub limit_lem :
    (m : Memory) (bound : ℕ) (b : Buffer)
    → b.count ≤ length b.segments
    → lengths (used_segments b) < 2 ^ 64
    → (bytes m (used_segments ((limit bound b).0)) ≡ take bound (bytes m (used_segments b)))
      × ((limit bound b).1 ≡ min bound (lengths (used_segments b)))
unfolding limit
limit_lem m bound b h fits =
    let l = limit_loop bound 0 (used_segments b) in
    let shape = length-limit_loop bound 0 (used_segments b) in
    let (same, count) = limit_loop-bytes m bound 0 (used_segments b) (omega arith) (omega arith) in
    let k : bound - 0 ≡ bound = omega arith in
    (
      ap (bytes m) (
            take-append_under l.kept l.segments (drop b.count b.segments)
              (omega (arith, shape.0, shape.1)))
          ∙ same
          ∙ ap (λ n. take n (bytes m (used_segments b))) k,
      count ∙ omega arith,
    )
