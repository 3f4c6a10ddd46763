-- ===== src/Cache/Examples.antt =====
-- The theorems on the cache of libs/cache/ot-cache.h at concrete inputs.
use obtools.Common.{ℕ, ◌<◌, ◌≡◌, ◌⊎◌, inr, refl, true, none, some, [], ◌∷◌, arith}
use obtools.Cache.{
  MapContent, Policies, Cache, add, evict, needed, evict_loop, find_worst, store, assign, erase,
  lookup, keep_used, worst_unused, fresh_data,
}
use obtools.Cache.Contents.{lookup-add_other}
use obtools.Cache.Eviction.{lru, lru_choice, NoneBefore, Holds}

abbrev policies : Policies ℕ
policies = record {
  keep_entry = keep_used 10;
  check_worst = worst_unused;
  prepare_to_die = λ id a. true;
}

abbrev entry : ℕ → ℕ → MapContent ℕ
entry a t = record {
  content = a;
  policy_data = record { add_time = t; use_time = t; use_count = 0 };
}

-- Two entries, used at the times 5 and 7, in a cache for two.
abbrev full : Cache ℕ
full = record { limit = 2; cachemap = (1, entry 11 5) ∷ (2, entry 22 7) ∷ [] }

abbrev noon : ℕ → ℕ
noon k = 12

add_run :
    add policies noon 12 3 33 full
    ≡ (record { limit = 2; cachemap = (2, entry 22 7) ∷ (3, entry 33 12) ∷ [] }, true)
unfolding add evict needed evict_loop find_worst store assign erase fresh_data worst_unused
add_run = refl

lookup-add_other_example :
    (lookup 2 (add policies noon 12 3 33 full).0 ≡ none)
    ⊎ (lookup 2 (add policies noon 12 3 33 full).0 ≡ lookup 2 full)
lookup-add_other_example =
    lookup-add_other policies noon 12 3 2 33 full (omega arith) (inr (omega arith))

lru_choice_example :
    ((find_worst (lru policies) none (fresh_data 12) full.cachemap ≡ none)
      × NoneBefore 12 full.cachemap)
    ⊎ ((j : ℕ) × (mc : MapContent ℕ) × (find_worst (lru policies) none (fresh_data 12) full.cachemap
          ≡ some (j, mc.content))
        × Holds j mc full.cachemap
        × (mc.policy_data.use_time < 12)
        × NoneBefore mc.policy_data.use_time full.cachemap)
lru_choice_example = lru_choice policies 12 full.cachemap
