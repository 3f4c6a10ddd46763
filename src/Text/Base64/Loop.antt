-- ===== src/Text/Base64/Loop.antt =====
-- The loop of the decoder of libs/text/base64.cc, group by group.
use obtools.Common.{
  ℕ, ◌+◌, ◌-◌, ◌*◌, ◌/◌, ◌%◌, ◌^◌, ◌≤◌, ◌<◌, ◌≡◌, refl, sym, subst, ap, ap₂, ◌∙◌, ◌⊎◌, inl, inr,
  List, [], ◌∷◌, ◌++◌, append-nil, append_assoc, Bool, true, false, ◌&&◌, length, leb, ◌==◌,
  if◌then◌else◌, Bool-cases, ==→≡, All, arith,
}
use obtools.Text.Base64.{
  Text, Base64, Kind, digit, stop, ignored, kind, write_out, left_over, decode_loop, decode,
}
use obtools.Text.Base64.Grouping.{indexes, unpack, Sextet}
use obtools.Text.Base64.Reading.{outcome, top_of, finished-write_out, if_room-write_out}

abbrev value : List ℕ → ℕ → ℕ
value [] n = n
value (d ∷ ds) n = value ds (n * 64 + d)

-- The digits of the group that is being read.
abbrev Pending : List ℕ → ℕ → ℕ → Type 0
Pending ds n i = (length ds < 4) × (i % 4 ≡ length ds) × (n ≡ value ds 0) × All Sextet ds

Kind-cases : (k : Kind) → ((n : ℕ) × (k ≡ digit n)) ⊎ (k ≡ stop) ⊎ (k ≡ ignored)
Kind-cases (digit n) = inl (n, refl)
Kind-cases stop = inr (inl refl)
Kind-cases ignored = inr (inr refl)

abbrev Small : Kind → Type 0
Small (digit n) = n < 64
Small stop = Unit {0}
Small ignored = Unit {0}

Small-if : (b : Bool) (k j : Kind) → (b ≡ true → Small k) → Small j → Small (if b then k else j)
Small-if true k j h g = h refl
Small-if false k j h g = g

kind-Small : (b64 : Base64) (c : ℕ) → Small (kind b64 c)
unfolding kind
kind-Small b64 c =
    Small-if (leb 65 c && leb c 90) (digit (c - 65)) _ (λ e. ground arith)
      (Small-if (leb 97 c && leb c 122) (digit (26 + c - 97)) _ (λ e. ground arith)
        (Small-if (leb 48 c && leb c 57) (digit (52 + c - 48)) _ (λ e. ground arith)
          (Small-if (c == b64.extra_62) (digit 62) _ (λ e. omega arith)
            (Small-if (c == b64.extra_63) (digit 63) _ (λ e. omega arith)
              (Small-if (c == b64.pad) stop ignored (λ e. tt) tt)))))

kind-Sextet : (b64 : Base64) (c n : ℕ) → kind b64 c ≡ digit n → n < 64
kind-Sextet b64 c n e = subst Small e (kind-Small b64 c)

left_over_lem :
    (max_length : ℕ) (ds : List ℕ) (n i : ℕ) (w : List ℕ)
    → Pending ds n i
    → length w ≤ max_length
    → left_over max_length n i w ≡ outcome max_length (w ++ unpack ds)
unfolding left_over write_out
left_over_lem max_length [] n i w p h =
    let i0 : i % 4 ≡ 0 = p.1 in rw i0 (finished-write_out max_length 0 n w h)
left_over_lem max_length (a ∷ []) n i w p h =
    let i1 : i % 4 ≡ 1 = p.1 in rw i1 (finished-write_out max_length 0 (n * 2 ^ 18 % 2 ^ 32) w h)
left_over_lem max_length (a ∷ b ∷ []) n i w p h =
    let i2 : i % 4 ≡ 2 = p.1 in
    let x : n * 2 ^ 12 % 2 ^ 32 / 2 ^ 16 % 256 ≡ a * 4 + b / 16 =
      omega (arith, p.2, p.3.0, p.3.1.0) in
    rw i2 (
      finished-write_out max_length 1 (n * 2 ^ 12 % 2 ^ 32) w h
      ∙ ap (λ u. outcome max_length (w ++ u ∷ [])) x)
left_over_lem max_length (a ∷ b ∷ c ∷ []) n i w p h =
    let i3 : i % 4 ≡ 3 = p.1 in
    let m = n * 2 ^ 6 % 2 ^ 32 in
    let x : m / 2 ^ 16 % 256 ≡ a * 4 + b / 16 = omega (arith, p.2, p.3.0, p.3.1.0, p.3.1.1.0) in
    let y : m * 256 % 2 ^ 32 / 2 ^ 16 % 256 ≡ b % 16 * 16 + c / 4 =
      omega (arith, p.2, p.3.0, p.3.1.0, p.3.1.1.0) in
    rw i3 (
      finished-write_out max_length 2 m w h ∙ ap₂ (λ u v. outcome max_length (w ++ u ∷ v ∷ [])) x y)
left_over_lem max_length (a ∷ b ∷ c ∷ d ∷ ds) n i w p h = absurd (omega (arith, p.0))

group_lem :
    (a b c d n : ℕ) (rest : List ℕ)
    → n ≡ value (a ∷ b ∷ c ∷ []) 0
    → All Sextet (a ∷ b ∷ c ∷ d ∷ [])
    → top_of 3 (n * 64 % 2 ^ 32 + d) ++ unpack rest ≡ unpack (a ∷ b ∷ c ∷ d ∷ rest)
group_lem a b c d n rest e h =
    let m = a * 2 ^ 18 + b * 2 ^ 12 + c * 2 ^ 6 + d in
    let all : n * 64 % 2 ^ 32 + d ≡ m = omega (arith, h.0, h.1.0, h.1.1.0) in
    let x : m / 2 ^ 16 % 256 ≡ a * 4 + b / 16 = omega (arith, h.0, h.1.0, h.1.1.0, h.1.1.1.0) in
    let y : m * 256 % 2 ^ 32 / 2 ^ 16 % 256 ≡ b % 16 * 16 + c / 4 =
      omega (arith, h.0, h.1.0, h.1.1.0, h.1.1.1.0) in
    let z : m * 256 % 2 ^ 32 * 256 % 2 ^ 32 / 2 ^ 16 % 256 ≡ c % 4 * 64 + d =
      omega (arith, h.0, h.1.0, h.1.1.0, h.1.1.1.0) in
    ap (λ k. top_of 3 k ++ unpack rest) all ∙ rw (x, y, z) refl

-- A digit that does not fill the group joins it.
Pending-push :
    (ds : List ℕ) (n i d : ℕ)
    → Pending ds n i
    → ((i + 1) % 4 == 0) ≡ false
    → d < 64
    → Pending (ds ++ d ∷ []) (n * 64 % 2 ^ 32 + d) (i + 1)
Pending-push [] n i d p f h = (omega arith, omega (arith, p.1), omega (arith, p.2), (h, tt))
Pending-push (a ∷ []) n i d p f h =
    (omega arith, omega (arith, p.1), omega (arith, p.2, p.3.0), (p.3.0, (h, tt)))
Pending-push (a ∷ b ∷ []) n i d p f h = (
  omega arith,
  omega (arith, p.1),
  omega (arith, p.2, p.3.0, p.3.1.0),
  (p.3.0, (p.3.1.0, (h, tt))),
)
Pending-push (a ∷ b ∷ c ∷ []) n i d p f h =
    let full : (i + 1) % 4 ≡ 0 = omega (arith, p.1) in absurd (ground (arith, full, f))
Pending-push (a ∷ b ∷ c ∷ e ∷ ds) n i d p f h = absurd (omega (arith, p.0))

full_group :
    (ds : List ℕ) (n i d : ℕ) (rest : List ℕ)
    → Pending ds n i
    → ((i + 1) % 4 == 0) ≡ true
    → d < 64
    → top_of 3 (n * 64 % 2 ^ 32 + d) ++ unpack rest ≡ unpack (ds ++ d ∷ rest)
full_group [] n i d rest p t h = absurd (omega (arith, p.1, ==→≡ ((i + 1) % 4) 0 t))
full_group (a ∷ []) n i d rest p t h = absurd (omega (arith, p.1, ==→≡ ((i + 1) % 4) 0 t))
full_group (a ∷ b ∷ []) n i d rest p t h = absurd (omega (arith, p.1, ==→≡ ((i + 1) % 4) 0 t))
full_group (a ∷ b ∷ c ∷ []) n i d rest p t h =
    group_lem a b c d n rest p.2 (p.3.0, (p.3.1.0, (p.3.1.1.0, (h, tt))))
full_group (a ∷ b ∷ c ∷ e ∷ ds) n i d rest p t h = absurd (omega (arith, p.0))

module _ (b64 : Base64) where
  decode_loop_lem :
      (max_length : ℕ) (cs : Text) (ds : List ℕ) (n i : ℕ) (w : List ℕ)
      → Pending ds n i
      → length w ≤ max_length
      → decode_loop b64 max_length cs n i w
        ≡ outcome max_length (w ++ unpack (ds ++ indexes b64 cs))
  unfolding decode_loop indexes
  decode_loop_lem max_length [] ds n i w p h =
      left_over_lem max_length ds n i w p h
      ∙ ap (λ u. outcome max_length (w ++ unpack u)) (sym (append-nil ds))
  decode_loop_lem max_length (c ∷ cs) ds n i w p h = elim (Kind-cases (kind b64 c)) [
    | inr (inl e) ↦ rw e (
        left_over_lem max_length ds n i w p h
        ∙ ap (λ u. outcome max_length (w ++ unpack u)) (sym (append-nil ds)))
    | inr (inr e) ↦ rw e (decode_loop_lem max_length cs ds n i w p h)
    | inl (d, e) ↦ elim (Bool-cases ((i + 1) % 4 == 0)) [
      | inr f ↦
          rw (e, f)
            (decode_loop_lem max_length cs (ds ++ d ∷ []) (n * 64 % 2 ^ 32 + d) (i + 1) w
                (Pending-push ds n i d p f (kind-Sextet b64 c d e)) h
              ∙ ap (λ u. outcome max_length (w ++ unpack u))
                  (append_assoc ds (d ∷ []) (indexes b64 cs)))
      | inl t ↦
          (let n' = n * 64 % 2 ^ 32 + d in
            let rest = indexes b64 cs in
            rw (e, t)
              (if_room-write_out max_length 3 n' w (unpack rest)
                  (λ w'. decode_loop b64 max_length cs 0 (i + 1) w') h
                  (λ l.
                    decode_loop_lem max_length cs [] 0 (i + 1) (w ++ top_of 3 n')
                      (omega arith, ==→≡ _ 0 t, refl, tt) l)
                ∙ ap (λ u. outcome max_length (w ++ u))
                    (full_group ds n i d rest p t (kind-Sextet b64 c d e))))
    ]
  ]

  -- The decoder writes the bytes that the digits before the padding stand for, and returns how many,
  -- if the block has room for them; if not it writes the first ones, as many as there is room for,
  -- and returns a number above that.
  pub decode_lem :
      (base64 : Text) (max_length : ℕ)
      → decode b64 base64 max_length ≡ outcome max_length (unpack (indexes b64 base64))
  unfolding decode
  decode_lem base64 max_length =
      decode_loop_lem max_length base64 [] 0 0 [] (omega arith, refl, refl, tt) (omega arith)
