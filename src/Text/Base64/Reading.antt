-- ===== src/Text/Base64/Reading.antt =====
-- The decoder of libs/text/base64.cc and what its digits stand for.
use obtools.Common.{
  ℕ, zero, suc, ◌+◌, ◌*◌, ◌/◌, ◌%◌, ◌^◌, ◌≤◌, ◌<◌, ◌≡◌, refl, sym, ap, ◌∙◌, inl, inr, List, [], ◌∷◌,
  ◌++◌, append-nil, append_assoc, true, false, length, length-append, take, take-append, ltb, leb,
  if◌then◌else◌, Bool-cases, arith,
}
use obtools.Text.Base64.{Decoded, write_out, finished, if_room}

-- All that the text stands for, or as much of it as there is room for and the sign of failure.
abbrev pub outcome : ℕ → List ℕ → Decoded
outcome max_length bytes =
    if leb (length bytes) max_length
    then record { written = bytes; result = length bytes }
    else record { written = take max_length bytes; result = max_length + 1 }

abbrev pub top_of : ℕ → ℕ → List ℕ
top_of zero n = []
top_of (suc count) n = n / 2 ^ 16 % 256 ∷ top_of count (n * 256 % 2 ^ 32)

length-top_of : (count n : ℕ) → length (top_of count n) ≡ count
length-top_of zero n = refl
length-top_of (suc count) n = omega (arith, length-top_of count (n * 256 % 2 ^ 32))

write_out_fits :
    (max_length count n : ℕ) (w : List ℕ)
    → length w + count ≤ max_length
    → write_out max_length count n w ≡ (w ++ top_of count n, true)
unfolding write_out
write_out_fits max_length zero n w h = ap (λ u. (u, true)) (sym (append-nil w))
write_out_fits max_length (suc count) n w h =
    let b = n / 2 ^ 16 % 256 ∷ [] in
    let t : ltb (length w) max_length ≡ true = ground arith in
    rw t (
      write_out_fits max_length count (n * 256 % 2 ^ 32) (w ++ b) (omega (arith, length-append w b))
      ∙ ap (λ u. (u, true)) (append_assoc w b (top_of count (n * 256 % 2 ^ 32))))

write_out_over :
    (max_length count n : ℕ) (w more : List ℕ)
    → length w ≤ max_length
    → max_length < length w + count
    → write_out max_length count n w ≡ (take max_length (w ++ (top_of count n ++ more)), false)
unfolding write_out
write_out_over max_length zero n w more h g = absurd (omega arith)
write_out_over max_length (suc count) n w more h g = elim (Bool-cases (ltb (length w) max_length)) [
  | inl t ↦
      (let b = n / 2 ^ 16 % 256 ∷ [] in
        let rest = top_of count (n * 256 % 2 ^ 32) ++ more in
        rw t (
          write_out_over max_length count (n * 256 % 2 ^ 32) (w ++ b) more
            (ground (arith, length-append w b)) (omega (arith, length-append w b))
          ∙ ap (λ u. (take max_length u, false)) (append_assoc w b rest)))
  | inr f ↦
      (let e : max_length ≡ length w = ground arith in
        rw f (ap (λ u. (u, false)) (sym (take-append w _ max_length e))))
]

outcome_fits :
    (max_length : ℕ) (bs : List ℕ)
    → length bs ≤ max_length
    → outcome max_length bs ≡ record { written = bs; result = length bs }
outcome_fits max_length bs h = let t : leb (length bs) max_length ≡ true = ground arith in rw t refl

outcome_over :
    (max_length : ℕ) (bs : List ℕ)
    → max_length < length bs
    → outcome max_length bs ≡ record { written = take max_length bs; result = max_length + 1 }
outcome_over max_length bs h =
    let t : leb (length bs) max_length ≡ false = ground arith in rw t refl

pub finished-write_out :
    (max_length count n : ℕ) (w : List ℕ)
    → length w ≤ max_length
    → finished max_length (write_out max_length count n w)
      ≡ outcome max_length (w ++ top_of count n)
finished-write_out max_length count n w h = elim (Bool-cases (leb (length w + count) max_length)) [
  | inl t ↦
      (let fits : length w + count ≤ max_length = ground arith in
        let l = length-append w (top_of count n) in
        let m = length-top_of count n in
        ap (finished max_length) (write_out_fits max_length count n w fits)
        ∙ sym (outcome_fits max_length (w ++ top_of count n) (omega (arith, l, m))))
  | inr f ↦
      (let over : max_length < length w + count = ground arith in
        let l = length-append w (top_of count n) in
        let m = length-top_of count n in
        ap (finished max_length) (write_out_over max_length count n w [] h over)
        ∙ ap (λ u. record { written = take max_length (w ++ u); result = max_length + 1 })
            (append-nil (top_of count n))
        ∙ sym (outcome_over max_length (w ++ top_of count n) (omega (arith, l, m))))
]

pub if_room-write_out :
    (max_length count n : ℕ) (w more : List ℕ) (next : List ℕ → Decoded)
    → length w ≤ max_length
    → (length (w ++ top_of count n) ≤ max_length
        → next (w ++ top_of count n) ≡ outcome max_length ((w ++ top_of count n) ++ more))
    → if_room max_length (write_out max_length count n w) next
      ≡ outcome max_length (w ++ (top_of count n ++ more))
if_room-write_out max_length count n w more next h go =
    elim (Bool-cases (leb (length w + count) max_length)) [
      | inl t ↦
          (let fits : length w + count ≤ max_length = ground arith in
            let l = length-append w (top_of count n) in
            let m = length-top_of count n in
            ap (λ u. if_room max_length u next) (write_out_fits max_length count n w fits)
            ∙ go (omega (arith, l, m))
            ∙ ap (outcome max_length) (append_assoc w (top_of count n) more))
      | inr f ↦
          (let over : max_length < length w + count = ground arith in
            let l = length-append w (top_of count n ++ more) in
            let k = length-append (top_of count n) more in
            let m = length-top_of count n in
            ap (λ u. if_room max_length u next) (write_out_over max_length count n w more h over)
            ∙ sym
                (outcome_over max_length (w ++ (top_of count n ++ more)) (omega (arith, l, k, m))))
    ]
