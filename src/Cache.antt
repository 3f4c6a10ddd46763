-- ===== src/Cache.antt =====
-- libs/cache/ot-cache.h: `Cache<ID, CONTENT, TIDY_POLICY, EVICTOR_POLICY>` and its policies, at
-- integer IDs. The `map` is an association list in the order of the keys. The time that `time()`
-- answers is an argument. The subclass hook `prepare_to_die` and the policies are functions; the
-- locks, which make each call atomic, are left out.
pub mod Map
pub mod Bounds
pub mod Contents
pub mod Eviction
mod Examples
use obtools.Common.{
  ℕ, zero, suc, ◌+◌, ◌-◌, ◌%◌, ◌^◌, Bool, true, false, Option, none, some, List, [], ◌∷◌, ltb, leb,
  ◌==◌, ◌&&◌, ◌||◌, not, if◌then◌else◌, length,
}

pub record PolicyData : Type 0 where
  pub add_time : ℕ
  pub use_time : ℕ
  pub use_count : ℕ

pub fresh_data : ℕ → PolicyData
fresh_data now = record { add_time = now; use_time = now; use_count = 0 }

-- `unsigned long` wraps at 64 bits.
pub touch_data : ℕ → PolicyData → PolicyData
touch_data now pd = record pd { use_time = now; use_count = (pd.use_count + 1) % 2 ^ 64 }

pub record MapContent {ℓ} (A : Type ℓ) : Type ℓ where
  pub content : A
  pub policy_data : PolicyData

-- TIDY_POLICY, EVICTOR_POLICY and the hook for subclasses.
pub record Policies {ℓ} (A : Type ℓ) : Type ℓ where
  pub keep_entry : PolicyData → ℕ → Bool
  pub check_worst : PolicyData → PolicyData → Bool
  pub prepare_to_die : ℕ → A → Bool

-- `NoTidyPolicy`, `UseTimeoutTidyPolicy`, `AgeTimeoutTidyPolicy`: `now-time < timeout` on signed
-- numbers, with a timeout that is not negative.
pub keep_always : PolicyData → ℕ → Bool
keep_always pd now = true

pub keep_used : ℕ → PolicyData → ℕ → Bool
keep_used timeout pd now = timeout == 0 || ltb now (pd.use_time + timeout)

pub keep_young : ℕ → PolicyData → ℕ → Bool
keep_young timeout pd now = timeout == 0 || ltb now (pd.add_time + timeout)

-- `NoEvictorPolicy`, `LRUEvictorPolicy`, `AgeEvictorPolicy`
pub worst_never : PolicyData → PolicyData → Bool
worst_never current worst = false

pub worst_unused : PolicyData → PolicyData → Bool
worst_unused current worst = ltb current.use_time worst.use_time

pub worst_old : PolicyData → PolicyData → Bool
worst_old current worst = ltb current.add_time worst.add_time

abbrev pub MapType {ℓ} : Type ℓ → Type ℓ
MapType A = List (ℕ × MapContent A)

module _ {ℓ} {A : Type ℓ} where
  -- `find`, `cachemap[id] = …` and `erase` of the map
  pub find : ℕ → MapType A → Option (MapContent A)
  find id [] = none
  find id ((j, mc) ∷ m) = if id == j then some mc else find id m

  pub assign : ℕ → MapContent A → MapType A → MapType A
  assign id mc [] = (id, mc) ∷ []
  assign id mc ((j, mj) ∷ m) =
      if id == j
      then (id, mc) ∷ m
      else if ltb id j
      then (id, mc) ∷ (j, mj) ∷ m
      else (j, mj) ∷ assign id mc m

  pub erase : ℕ → MapType A → MapType A
  erase id [] = []
  erase id ((j, mj) ∷ m) = if id == j then m else (j, mj) ∷ erase id m

pub record Cache {ℓ} (A : Type ℓ) : Type ℓ where
  pub limit : ℕ
  pub cachemap : MapType A

module _ {ℓ} {A : Type ℓ} where
  store : ℕ → ℕ → A → Cache A → Cache A
  store now id content c = record c {
    cachemap = assign id (record { content = content; policy_data = fresh_data now }) c.cachemap;
  }

module _ {ℓ} {A : Type ℓ} (p : Policies A) where
  -- The scan of `evict`: the last entry that the policy calls worse than the worst so far.
  pub find_worst : Option (ℕ × A) → PolicyData → MapType A → Option (ℕ × A)
  find_worst worst worst_data [] = worst
  find_worst worst worst_data ((j, mc) ∷ m) =
      let worse = find_worst (some (j, mc.content)) mc.policy_data m in
      let same = find_worst worst worst_data m in
      if p.check_worst mc.policy_data worst_data then worse else same

  -- `while (needed)`. `clock needed` is the time in the round with that many still needed.
  pub evict_loop : (ℕ → ℕ) → ℕ → MapType A → MapType A × Bool
  evict_loop clock zero m = (m, true)
  evict_loop clock (suc needed) m = elim (find_worst none (fresh_data (clock (suc needed))) m) [
    | none ↦ (m, false)
    | some (j, content) ↦ elim (p.prepare_to_die j content) [
      | true ↦ evict_loop clock needed (erase j m)
      | false ↦ (m, false)
    ]
  ]

  -- `unsigned int needed = cachemap.size() - limit + 1`, in 64 bits and then cut to 32.
  pub needed : Cache A → ℕ
  needed c = (length c.cachemap + 2 ^ 64 - c.limit + 1) % 2 ^ 64 % 2 ^ 32

  with_map : Cache A → MapType A × Bool → Cache A × Bool
  with_map c (m, r) = (record c { cachemap = m }, r)

  pub evict : (ℕ → ℕ) → Cache A → Cache A × Bool
  unfolding with_map
  evict clock c = with_map c (evict_loop clock (needed c) c.cachemap)

  pub set_limit : (ℕ → ℕ) → ℕ → Cache A → Cache A
  set_limit clock l c = (evict clock (record c { limit = l })).0

  -- `add`: `evict` is called only where there is a limit and it is reached.
  pub add : (ℕ → ℕ) → ℕ → ℕ → A → Cache A → Cache A × Bool
  unfolding store
  add clock now id content c =
      if not (c.limit == 0) && leb c.limit (length c.cachemap)
      then (let (c', room) = evict clock c in
          if room then (store now id content c', true) else (c', false))
      else (store now id content c, true)

  -- `tidy`: keeps an entry that the policy keeps, or that refuses to die.
  pub tidy_map : ℕ → MapType A → MapType A
  tidy_map now [] = []
  tidy_map now ((j, mc) ∷ m) =
      let rest = tidy_map now m in
      if not (p.keep_entry mc.policy_data now) && p.prepare_to_die j mc.content
      then rest
      else (j, mc) ∷ rest

  pub tidy : ℕ → Cache A → Cache A
  tidy now c = record c { cachemap = tidy_map now c.cachemap }

module _ {ℓ} {A : Type ℓ} where
  is_found : Option (MapContent A) → Bool
  is_found none = false
  is_found (some mc) = true

  pub contains : ℕ → Cache A → Bool
  unfolding is_found
  contains id c = is_found (find id c.cachemap)

  content_of : Option (MapContent A) → Option A
  content_of none = none
  content_of (some mc) = some mc.content

  pub lookup : ℕ → Cache A → Option A
  unfolding content_of
  lookup id c = content_of (find id c.cachemap)

  touched : ℕ → ℕ → Cache A → Option (MapContent A) → Cache A × Bool
  touched now id c none = (c, false)
  touched now id c (some mc) = (
    record c {
      cachemap = assign id (record mc { policy_data = touch_data now mc.policy_data }) c.cachemap;
    },
    true,
  )

  pub touch : ℕ → ℕ → Cache A → Cache A × Bool
  unfolding touched
  touch now id c = touched now id c (find id c.cachemap)

  pub remove : ℕ → Cache A → Cache A
  remove id c = record c { cachemap = erase id c.cachemap }

  pub clear : Cache A → Cache A
  clear c = record c { cachemap = [] }
