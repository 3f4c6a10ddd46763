-- ===== src/Cache/Eviction.antt =====
-- Which entry the LRU policy of libs/cache/ot-cache.h evicts, and what `set_limit` evicts.
use obtools.Common.{
  ℕ, ◌≤◌, ◌<◌, ◌≡◌, ◌⊎◌, refl, ◌∙◌, Option, none, some, [], ◌∷◌, ltb, arith, Bool-cases, inl, inr,
}
use obtools.Cache.{
  MapContent, MapType, Policies, PolicyData, Cache, fresh_data, find_worst, worst_unused,
}

module _ {ℓ} {A : Type ℓ} where
  -- `LRUEvictorPolicy`, with the other two functions left open.
  abbrev pub lru : Policies A → Policies A
  lru p = record p { check_worst = worst_unused }

  -- No entry was used before `t`; all were.
  abbrev pub NoneBefore : ℕ → MapType A → Type 0
  NoneBefore t [] = Unit
  NoneBefore t ((j, mc) ∷ m) = (t ≤ mc.policy_data.use_time) × NoneBefore t m

  abbrev pub AllBefore : ℕ → MapType A → Type 0
  AllBefore t [] = Unit
  AllBefore t ((j, mc) ∷ m) = (mc.policy_data.use_time < t) × AllBefore t m

  abbrev pub Holds : ℕ → MapContent A → MapType A → Type ℓ
  Holds j mc [] = ⊥ × Unit {ℓ}
  Holds j mc ((k, mk) ∷ m) = ((j ≡ k) × (mc ≡ mk)) ⊎ Holds j mc m

  NoneBefore-weaken : (t t' : ℕ) (m : MapType A) → t' ≤ t → NoneBefore t m → NoneBefore t' m
  NoneBefore-weaken t t' [] h n = tt
  NoneBefore-weaken t t' ((j, mc) ∷ m) h n = (omega arith, NoneBefore-weaken t t' m h n.1)

module _ {ℓ} {A : Type ℓ} (p : Policies A) where
  -- The scan keeps what it began with only if no entry is worse, and else answers a least used one.
  abbrev Least : Option (ℕ × A) → PolicyData → MapType A → Option (ℕ × A) → Type ℓ
  Least w d m r =
      ((r ≡ w) × NoneBefore d.use_time m)
      ⊎ ((j : ℕ) × (mc : MapContent A) × (r ≡ some (j, mc.content))
          × Holds j mc m
          × (mc.policy_data.use_time < d.use_time)
          × NoneBefore mc.policy_data.use_time m)

  Least-step :
      (w w' : Option (ℕ × A)) (d : PolicyData) (k : ℕ) (mk : MapContent A) (m : MapType A)
      (r : Option (ℕ × A))
      → (w' ≡ some (k, mk.content))
      → mk.policy_data.use_time < d.use_time
      → Least w' mk.policy_data m r
      → Least w d ((k, mk) ∷ m) r
  Least-step w w' d k mk m r e h (inl (same, n)) =
      inr (k, mk, same ∙ e, inl (refl, refl), h, (omega arith, n))
  Least-step w w' d k mk m r e h (inr (j, mc, f, g, lt, n)) =
      inr (j, mc, f, inr g, omega arith, (omega arith, n))

  Least-skip :
      (w : Option (ℕ × A)) (d : PolicyData) (k : ℕ) (mk : MapContent A) (m : MapType A)
      (r : Option (ℕ × A))
      → d.use_time ≤ mk.policy_data.use_time
      → Least w d m r
      → Least w d ((k, mk) ∷ m) r
  Least-skip w d k mk m r h (inl (same, n)) = inl (same, (h, n))
  Least-skip w d k mk m r h (inr (j, mc, f, g, lt, n)) = inr (j, mc, f, inr g, lt, (omega arith, n))

  find_worst-Least :
      (w : Option (ℕ × A)) (d : PolicyData) (m : MapType A) → Least w d m (find_worst (lru p) w d m)
  unfolding find_worst worst_unused
  find_worst-Least w d [] = inl (refl, tt)
  find_worst-Least w d ((k, mk) ∷ m) = elim (Bool-cases (ltb mk.policy_data.use_time d.use_time)) [
    | inl t ↦ rw t (
        Least-step w (some (k, mk.content)) d k mk m _ refl (ground arith)
          (find_worst-Least (some (k, mk.content)) mk.policy_data m))
    | inr t ↦ rw t (Least-skip w d k mk m _ (ground arith) (find_worst-Least w d m))
  ]

  -- What one round of `evict` chooses under the LRU policy, at the time `now`: nothing, if no entry was
  -- last used before `now`, or else an entry of the map that was last used before `now` and that no
  -- entry was last used before.
  pub lru_choice :
      (now : ℕ) (m : MapType A)
      → ((find_worst (lru p) none (fresh_data now) m ≡ none) × NoneBefore now m)
        ⊎ ((j : ℕ) × (mc : MapContent A) × (find_worst (lru p) none (fresh_data now) m
              ≡ some (j, mc.content))
            × Holds j mc m
            × (mc.policy_data.use_time < now)
            × NoneBefore mc.policy_data.use_time m)
  unfolding fresh_data
  lru_choice now m = find_worst-Least none (fresh_data now) m
