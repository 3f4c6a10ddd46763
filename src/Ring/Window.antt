-- ===== src/Ring/Window.antt =====
-- Lemmas on the window of items between the two indices of a ring buffer (libs/ring/ot-ring.h).
use obtools.Common.{
  ℕ, zero, suc, ◌+◌, ◌-◌, ◌^◌, ◌≤◌, ◌<◌, ◌≡◌, refl, ap, ◌∙◌, List, [], ◌∷◌, ◌++◌, length, get_or,
  get_or-set_ne, set, length-set, arith, leb, if◌then◌else◌,
}
use obtools.Ring.{Buffer, inc, window}

-- The index `n` places after `i`, and the number of places from `i` to `j`, in a ring of this size.
abbrev pub ahead : ℕ → ℕ → ℕ → ℕ
ahead size i n = if leb size (i + n) then i + n - size else i + n

abbrev pub places : ℕ → ℕ → ℕ → ℕ
places size i j = if leb i j then j - i else j + size - i

module _ {ℓ} {A : Type ℓ} where
  pub inc_lem :
      (b : Buffer A) (i : ℕ)
      → i < length b.items
      → length b.items ≤ 2 ^ 31
      → inc b i ≡ (if leb (length b.items) (i + 1) then 0 else i + 1)
  unfolding inc
  inc_lem b i h s = ground arith

  pub inc_range : (b : Buffer A) (i : ℕ) → 0 < length b.items → inc b i < length b.items
  unfolding inc
  inc_range b i h = ground arith

  pub inc-length : (b c : Buffer A) (i : ℕ) → length c.items ≡ length b.items → inc c i ≡ inc b i
  unfolding inc
  inc-length b c i e = rw e

  pub length-window : (fresh : A) (b : Buffer A) (n i : ℕ) → length (window fresh b n i) ≡ n
  unfolding window
  length-window fresh b zero i = refl
  length-window fresh b (suc n) i = ap suc (length-window fresh b n (inc b i))

  -- The window reads the items alone.
  pub window-items :
      (fresh : A) (b c : Buffer A) (n i : ℕ)
      → c.items ≡ b.items
      → window fresh c n i ≡ window fresh b n i
  unfolding window inc
  window-items fresh b c zero i e = refl
  window-items fresh b c (suc n) i e = ground (
    arith,
    ap (λ (l : List A). get_or l i fresh) e,
    ap length e,
    window-items fresh b c n (inc b i) e,
  )

  -- One more place adds the item at its end.
  pub window_last :
      (fresh : A) (b : Buffer A) (n i : ℕ)
      → i < length b.items
      → n < length b.items
      → length b.items ≤ 2 ^ 31
      → window fresh b (suc n) i
        ≡ window fresh b n i ++ get_or b.items (ahead (length b.items) i n) fresh ∷ []
  unfolding window
  window_last fresh b zero i h k s = ap (λ j. get_or b.items j fresh ∷ []) (ground arith)
  window_last fresh b (suc n) i h k s =
      ap (λ t. get_or b.items i fresh ∷ t)
        (window_last fresh b n (inc b i) (inc_range b i (omega arith)) (omega arith) s
          ∙ ap (λ j. window fresh b n (inc b i) ++ get_or b.items j fresh ∷ [])
              (ground (arith, inc_lem b i)))

  -- A write at a place outside of the window does not show.
  pub window-set :
      (fresh x : A) (b : Buffer A) (j k n i : ℕ)
      → i < length b.items
      → j < length b.items
      → length b.items ≤ 2 ^ 31
      → n ≤ places (length b.items) i j
      → window fresh (record b { items = set b.items j x; in_index = k }) n i ≡ window fresh b n i
  unfolding window
  window-set fresh x b j k zero i h hj s far = refl
  window-set fresh x b j k (suc n) i h hj s far = ground (
    arith,
    get_or-set_ne b.items j i x fresh (ground arith),
    inc-length b (record b { items = set b.items j x; in_index = k }) i (length-set b.items j x),
    inc_lem b i h s,
    window-set fresh x b j k n (inc b i) (inc_range b i (omega arith)) hj s
        (ground (arith, inc_lem b i h s)),
  )
