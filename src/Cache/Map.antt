-- ===== src/Cache/Map.antt =====
-- The `map` of libs/cache/ot-cache.h.
use obtools.Common.{
  ℕ, suc, ◌≤◌, ◌<◌, ◌≡◌, refl, none, some, [], ◌∷◌, ◌==◌, if◌then◌else◌, length, arith,
}
use obtools.Cache.{MapContent, MapType, find, assign, erase}

-- The keys ascend from `lo` on, so that no key occurs twice.
abbrev pub Sorted {ℓ} : {A : Type ℓ} → ℕ → MapType A → Type 0
Sorted lo [] = Unit
Sorted lo ((j, mc) ∷ m) = (lo ≤ j) × Sorted (suc j) m

module _ {ℓ} {A : Type ℓ} where
  pub Sorted-weaken : (lo lo' : ℕ) (m : MapType A) → lo' ≤ lo → Sorted lo m → Sorted lo' m
  Sorted-weaken lo lo' [] h s = tt
  Sorted-weaken lo lo' ((j, mc) ∷ m) h s = (omega arith, s.1)

  pub find-assign :
      (j id : ℕ) (mc : MapContent A) (m : MapType A)
      → find j (assign id mc m) ≡ (if j == id then some mc else find j m)
  unfolding find assign
  find-assign j id mc [] = refl
  find-assign j id mc ((k, mk) ∷ m) = ground (arith, find-assign j id mc m)

  pub find_below : (j lo : ℕ) (m : MapType A) → j < lo → Sorted lo m → find j m ≡ none
  unfolding find
  find_below j lo [] h s = refl
  find_below j lo ((k, mk) ∷ m) h s = ground (arith, find_below j (suc k) m (omega arith) s.1)

  pub find-erase :
      (j id lo : ℕ) (m : MapType A)
      → Sorted lo m
      → find j (erase id m) ≡ (if j == id then none else find j m)
  unfolding find erase
  find-erase j id lo [] s = ground arith
  find-erase j id lo ((k, mk) ∷ m) s =
      ground (arith, find-erase j id (suc k) m s.1, find_below j (suc k) m)

  pub assign-Sorted :
      (id lo : ℕ) (mc : MapContent A) (m : MapType A)
      → lo ≤ id
      → Sorted lo m
      → Sorted lo (assign id mc m)
  unfolding assign
  assign-Sorted id lo mc [] h s = (h, tt)
  assign-Sorted id lo mc ((k, mk) ∷ m) h s = ground (arith, assign-Sorted id (suc k) mc m, s.1)

  pub erase-Sorted : (id lo : ℕ) (m : MapType A) → Sorted lo m → Sorted lo (erase id m)
  unfolding erase
  erase-Sorted id lo [] s = tt
  erase-Sorted id lo ((k, mk) ∷ m) s =
      ground (arith, erase-Sorted id (suc k) m s.1, Sorted-weaken (suc k) lo m, s.1)

  pub length-assign :
      (id : ℕ) (mc : MapContent A) (m : MapType A) → length (assign id mc m) ≤ suc (length m)
  unfolding assign
  length-assign id mc [] = omega arith
  length-assign id mc ((k, mk) ∷ m) = ground (arith, length-assign id mc m)

  pub length-erase :
      (id : ℕ) (mc : MapContent A) (m : MapType A)
      → find id m ≡ some mc
      → suc (length (erase id m)) ≡ length m
  unfolding find erase
  length-erase id mc [] e = ground arith
  length-erase id mc ((k, mk) ∷ m) e = ground (arith, length-erase id mc m)
