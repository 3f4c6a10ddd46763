-- ===== src/Cache/Bounds.antt =====
-- The limit of a cache of libs/cache/ot-cache.h.
use obtools.Common.{
  ℕ, zero, suc, ◌+◌, ◌^◌, ◌≤◌, ◌<◌, ◌≡◌, ◌≢◌, ◌⊎◌, true, false, Option, none, some, [], ◌∷◌, ◌==◌,
  Bool, length, arith, Bool-cases, Option-cases, inl, inr,
}
use obtools.Cache.{
  MapContent, MapType, Policies, PolicyData, Cache, fresh_data, find, erase, find_worst, evict_loop,
  needed, evict,
}
use obtools.Cache.Map.{length-erase}

module _ {ℓ} {A : Type ℓ} (p : Policies A) where
  abbrev Present : ℕ → MapType A → Type ℓ
  Present j m = (mc : MapContent A) × (find j m ≡ some mc)

  Present-cons :
      (j k : ℕ) (mk : MapContent A) (m : MapType A) → Present j m → Present j ((k, mk) ∷ m)
  unfolding find
  Present-cons j k mk m (mc, e) = elim (Bool-cases (j == k)) [
    | inl t ↦ (mk, rw t)
    | inr t ↦ (mc, rw t e)
  ]

  Present-head : (j k : ℕ) (mk : MapContent A) (m : MapType A) → k ≡ j → Present j ((k, mk) ∷ m)
  unfolding find
  Present-head j k mk m h = let t : (j == k) ≡ true = ground arith in (mk, rw t)

  -- The scan answers an entry of the map, or what it began with.
  pub find_worst_found :
      (w : Option (ℕ × A)) (d : PolicyData) (m : MapType A) (j : ℕ) (a : A)
      → find_worst p w d m ≡ some (j, a)
      → (w ≡ some (j, a)) ⊎ Present j m
  unfolding find_worst
  find_worst_found w d [] j a e = inl e
  find_worst_found w d ((k, mk) ∷ m) j a e = elim (Bool-cases (p.check_worst mk.policy_data d)) [
    | inl t ↦ elim (find_worst_found (some (k, mk.content)) mk.policy_data m j a (rw t at e)) [
      | inl same ↦ inr (Present-head j k mk m (key_of same))
      | inr q ↦ inr (Present-cons j k mk m q)
    ]
    | inr t ↦ elim (find_worst_found w d m j a (rw t at e)) [
      | inl same ↦ inl same
      | inr q ↦ inr (Present-cons j k mk m q)
    ]
  ]
    where
      key_of : ◌≡◌ {A = Option (ℕ × A)} (some (k, mk.content)) (some (j, a)) → k ≡ j
      key_of h = cc

  module _ (clock : ℕ → ℕ) (n : ℕ) (m : MapType A) where
    abbrev pub scanned : Option (ℕ × A)
    scanned = find_worst p none (fresh_data (clock (suc n))) m

    pub evict_loop-none : scanned ≡ none → evict_loop p clock (suc n) m ≡ (m, false)
    unfolding evict_loop
    evict_loop-none e = rw (e, evict_loop)

    pub evict_loop-some :
        (j : ℕ) (a : A)
        → scanned ≡ some (j, a)
        → p.prepare_to_die j a ≡ true
        → evict_loop p clock (suc n) m ≡ evict_loop p clock n (erase j m)
    unfolding evict_loop
    evict_loop-some j a e t = rw (e, evict_loop) (rw t)

    pub evict_loop-refused :
        (j : ℕ) (a : A)
        → scanned ≡ some (j, a)
        → p.prepare_to_die j a ≡ false
        → evict_loop p clock (suc n) m ≡ (m, false)
    unfolding evict_loop
    evict_loop-refused j a e t = rw (e, evict_loop) (rw t)

    pub scanned_found :
        (j : ℕ) (a : A) → scanned ≡ some (j, a) → (mc : MapContent A) × (find j m ≡ some mc)
    scanned_found j a e = elim (find_worst_found none _ m j a e) [ inl h ↦ cc | inr q ↦ q ]

  -- A loop that ends well has erased as many entries as were needed, and one that fails fewer.
  Counts : ℕ → MapType A → MapType A × Bool → Type 0
  Counts n m r = (length r.0 ≤ length m) × (r.1 ≡ true → length r.0 + n ≡ length m)

  evict_loop-Counts : (clock : ℕ → ℕ) (n : ℕ) (m : MapType A) → Counts n m (evict_loop p clock n m)
  unfolding Counts
  evict_loop-Counts clock zero m = unfold evict_loop in (omega arith, λ e. omega arith)
  evict_loop-Counts clock (suc n) m = elim (Option-cases (scanned clock n m)) [
    | inl e ↦ rw (evict_loop-none clock n m e) (omega arith, λ f. cc)
    | inr ((j, a), e) ↦ elim (Bool-cases (p.prepare_to_die j a)) [
      | inl t ↦
          let ih = evict_loop-Counts clock n (erase j m) in
          let (mc, f) = scanned_found clock n m j a e in
          rw (evict_loop-some clock n m j a e t) (
            omega (arith, ih.0, length-erase j mc m f),
            λ g. omega (arith, ih.1 g, length-erase j mc m f),
          )
      | inr t ↦ rw (evict_loop-refused clock n m j a e t) (omega arith, λ f. cc)
    ]
  ]

  -- An `evict` on a cache that is at its limit, or beyond it, that answers true has made room for one
  -- entry; one that answers false has not added any.
  pub length-evict :
      (clock : ℕ → ℕ) (c : Cache A)
      → c.limit ≢ 0
      → c.limit ≤ length c.cachemap
      → length c.cachemap + 1 < 2 ^ 32
      → (length (evict p clock c).0.cachemap ≤ length c.cachemap)
        × ((evict p clock c).1 ≡ true → suc (length (evict p clock c).0.cachemap) ≡ c.limit)
  unfolding evict needed Counts
  length-evict clock c h k s =
      let r = evict_loop-Counts clock (needed p c) c.cachemap in (r.0, λ e. omega (arith, r.1 e))
