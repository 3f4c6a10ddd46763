-- ===== src/Channel/BitStream/Bits.antt =====
-- Numbers as rows of bits, the most significant first.
use obtools.Common.{
  ℕ, zero, suc, ◌+◌, ◌*◌, ◌/◌, ◌%◌, ◌^◌, ◌≤◌, ◌<◌, ◌≡◌, refl, sym, ap, ◌∙◌, List, [], ◌∷◌, ◌++◌,
  append_assoc, append-nil, replicate, length, length-append, arith,
}
use native.Mathlib.Nat.{mul_assoc, pow-suc, pow-succ', div-div-eq-div-mul}
use obtools.Channel.{Bytes}
use obtools.Channel.BitStream.{push_bit}

-- The last `n` bits of `v`.
abbrev pub bits : ℕ → ℕ → List ℕ
bits zero v = []
bits (suc n) v = v / 2 ^ n % 2 ∷ bits n v

-- The number whose bits follow those of `acc`.
abbrev pub from_bits : List ℕ → ℕ → ℕ
from_bits [] acc = acc
from_bits (b ∷ bs) acc = from_bits bs (push_bit acc b)

abbrev pub bits_of : Bytes → List ℕ
bits_of [] = []
bits_of (b ∷ bs) = bits 8 b ++ bits_of bs

pub bits_of-append : (xs ys : Bytes) → bits_of (xs ++ ys) ≡ bits_of xs ++ bits_of ys
bits_of-append [] ys = refl
bits_of-append (x ∷ xs) ys =
    ap (λ t. bits 8 x ++ t) (bits_of-append xs ys)
    ∙ sym (append_assoc (bits 8 x) (bits_of xs) (bits_of ys))

pub shift : (v n : ℕ) → v / 2 ^ suc n ≡ v / 2 / 2 ^ n
shift v n = rw (pow-succ' 2 n) (sym (div-div-eq-div-mul v 2 (2 ^ n)))

pub bits-half : (n v : ℕ) → bits (suc n) v ≡ bits n (v / 2) ++ v % 2 ∷ []
bits-half zero v = ground arith
bits-half (suc n) v = rw (shift v n) (ap (λ t. v / 2 / 2 ^ n % 2 ∷ t) (bits-half n v))

pub bits-push : (n v b : ℕ) → b < 2 → bits (suc n) (push_bit v b) ≡ bits n v ++ b ∷ []
bits-push n v b h =
    let q : (v * 2 + b) / 2 ≡ v = omega arith in
    let m : (v * 2 + b) % 2 ≡ b = omega arith in bits-half n (v * 2 + b) ∙ rw (q, m) refl

-- As many as are asked for.
pub length-bits : (n v : ℕ) → length (bits n v) ≡ n
length-bits zero v = refl
length-bits (suc n) v = ap suc (length-bits n v)

pub from_bits-append :
    (xs ys : List ℕ) (acc : ℕ) → from_bits (xs ++ ys) acc ≡ from_bits ys (from_bits xs acc)
from_bits-append [] ys acc = refl
from_bits-append (x ∷ xs) ys acc = from_bits-append xs ys (push_bit acc x)

pub from_bits-bits : (n v acc : ℕ) → v < 2 ^ n → from_bits (bits n v) acc ≡ acc * 2 ^ n + v
from_bits-bits zero v acc h = omega arith
from_bits-bits (suc n) v acc h =
    let e : 2 ^ suc n ≡ 2 ^ n * 2 = pow-suc 2 n in
    let ih = from_bits-bits n (v / 2) acc (omega arith) in
    rw
      (
        bits-half n v,
        from_bits-append (bits n (v / 2)) (v % 2 ∷ []) acc,
        ih,
        e,
        sym (mul_assoc acc (2 ^ n) 2),
      )
      (omega arith)

replicate_last : (p a : ℕ) → replicate p a ++ a ∷ [] ≡ replicate (suc p) a
replicate_last zero a = refl
replicate_last (suc p) a = ap (λ l. a ∷ l) (replicate_last p a)

doubled : (c p : ℕ) → c * 2 ^ suc p ≡ push_bit (c * 2 ^ p) 0
doubled c p = rw (pow-suc 2 p, ← mul_assoc c (2 ^ p) 2) (omega arith)

-- A shift to the left adds zeros.
pub bits-shift : (n p c : ℕ) → bits (n + p) (c * 2 ^ p) ≡ bits n c ++ replicate p 0
bits-shift n zero c =
    let a : n + 0 ≡ n = omega arith in
    let m : c * 1 ≡ c = omega arith in rw (a, m) (sym (append-nil (bits n c)))
bits-shift n (suc p) c =
    let a : n + suc p ≡ suc (n + p) = omega arith in
    rw (a, doubled c p, bits-push (n + p) (c * 2 ^ p) 0 (omega arith), bits-shift n p c)
      (append_assoc (bits n c) (replicate p 0) (0 ∷ [])
        ∙ ap (λ l. bits n c ++ l) (replicate_last p 0))

pub shift-narrow : (n p c : ℕ) → c < 2 ^ n → c * 2 ^ p < 2 ^ (n + p)
shift-narrow n zero c h = let a : n + 0 ≡ n = omega arith in rw a (omega arith)
shift-narrow n (suc p) c h =
    let a : n + suc p ≡ suc (n + p) = omega arith in
    rw (a, doubled c p, pow-suc 2 (n + p)) (omega (arith, shift-narrow n p c h))

pub from_bits-le : (bs : List ℕ) (acc : ℕ) → acc ≤ from_bits bs acc
from_bits-le [] acc = omega arith
from_bits-le (b ∷ bs) acc = omega (arith, from_bits-le bs (push_bit acc b))

pub length-bits_of : (bs : Bytes) → length (bits_of bs) ≡ 8 * length bs
length-bits_of [] = refl
length-bits_of (b ∷ bs) = omega (arith, length-append (bits 8 b) (bits_of bs), length-bits_of bs)
