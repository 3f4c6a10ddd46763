-- ===== src/Cache/Contents.antt =====
-- What a client of libs/cache/ot-cache.h finds in the cache after each operation.
use obtools.Common.{
  ℕ, zero, suc, ◌<◌, ◌≡◌, ◌≢◌, ◌⊎◌, refl, ap, ◌∙◌, true, false, Option, none, some, [], ◌∷◌, leb,
  ◌==◌, not, ◌&&◌, if◌then◌else◌, length, arith, Bool-cases, Option-cases, inl, inr, ==-refl,
}
use obtools.Cache.{
  MapContent, MapType, Policies, Cache, fresh_data, find, erase, evict_loop, needed, evict, add,
  store, tidy_map, lookup,
}
use obtools.Cache.Map.{Sorted, find-assign, find-erase, find_below, erase-Sorted}
use obtools.Cache.Bounds.{scanned, evict_loop-none, evict_loop-some, evict_loop-refused}

module _ {ℓ} {A : Type ℓ} (p : Policies A) where
  -- `m'` holds nothing that `m` does not, and is in order.
  record Within (m m' : MapType A) : Type ℓ where
    sorted : Sorted 0 m'
    kept : (j : ℕ) → (find j m' ≡ none) ⊎ (find j m' ≡ find j m)

  erase-Within : (id : ℕ) (m m' : MapType A) → Sorted 0 m → Within (erase id m) m' → Within m m'
  erase-Within id m m' s w = record { sorted = w.sorted; kept = λ j. back j (w.kept j) }
    where
      back :
          (j : ℕ)
          → (find j m' ≡ none) ⊎ (find j m' ≡ find j (erase id m))
          → (find j m' ≡ none) ⊎ (find j m' ≡ find j m)
      back j (inl e) = inl e
      back j (inr e) = elim (Bool-cases (j == id)) [
        | inl t ↦ inl (e ∙ find-erase j id 0 m s ∙ rw t)
        | inr t ↦ inr (e ∙ find-erase j id 0 m s ∙ rw t)
      ]

  evict_loop-Within :
      (clock : ℕ → ℕ) (n : ℕ) (m : MapType A) → Sorted 0 m → Within m (evict_loop p clock n m).0
  evict_loop-Within clock zero m s =
      unfold evict_loop in record { sorted = s; kept = λ j. inr refl }
  evict_loop-Within clock (suc n) m s = elim (Option-cases (scanned p clock n m)) [
    | inl e ↦ rw (evict_loop-none p clock n m e) (record { sorted = s; kept = λ j. inr refl })
    | inr ((j, a), e) ↦ elim (Bool-cases (p.prepare_to_die j a)) [
      | inl t ↦
          rw (evict_loop-some p clock n m j a e t)
            (erase-Within j m _ s (evict_loop-Within clock n (erase j m) (erase-Sorted j 0 m s)))
      | inr t ↦
          rw (evict_loop-refused p clock n m j a e t) (record { sorted = s; kept = λ j. inr refl })
    ]
  ]

  evict-Within :
      (clock : ℕ → ℕ) (c : Cache A)
      → Sorted 0 c.cachemap
      → Within c.cachemap (evict p clock c).0.cachemap
  unfolding evict
  evict-Within clock c s = evict_loop-Within clock (needed p c) c.cachemap s

  lookup-store :
      (now id j : ℕ) (a : A) (c : Cache A)
      → lookup j (store now id a c) ≡ (if j == id then some a else lookup j c)
  unfolding lookup store
  lookup-store now id j a c =
      rw (find-assign j id (record { content = a; policy_data = fresh_data now }) c.cachemap)
        (elim (Bool-cases (j == id)) [ inl t ↦ rw t | inr t ↦ rw t ])

  store_self : (now id : ℕ) (a : A) (c : Cache A) → lookup id (store now id a c) ≡ some a
  store_self now id a c = lookup-store now id id a c ∙ rw (==-refl id)

  store_other :
      (now id j : ℕ) (a : A) (c : Cache A) → j ≢ id → lookup j (store now id a c) ≡ lookup j c
  store_other now id j a c h =
      let t : (j == id) ≡ false = ground arith in lookup-store now id j a c ∙ rw t

  lookup-Within :
      (j : ℕ) (c c' : Cache A)
      → Within c.cachemap c'.cachemap
      → (lookup j c' ≡ none) ⊎ (lookup j c' ≡ lookup j c)
  unfolding lookup
  lookup-Within j c c' w = elim (w.kept j) [ inl e ↦ inl (rw e) | inr e ↦ inr (rw e) ]

  -- With no limit, or below it, `add` succeeds and changes the content under its ID alone.
  pub lookup-add_room :
      (clock : ℕ → ℕ) (now id j : ℕ) (a : A) (c : Cache A)
      → (c.limit ≡ 0) ⊎ (length c.cachemap < c.limit)
      → ((add p clock now id a c).1 ≡ true)
        × (lookup j (add p clock now id a c).0 ≡ (if j == id then some a else lookup j c))
  unfolding add
  lookup-add_room clock now id j a c h =
      let e : (not (c.limit == 0) && leb c.limit (length c.cachemap)) ≡ false = ground arith in
      rw e (refl, lookup-store now id j a c)

  -- An `add` that succeeds leaves its content under its ID.
  pub lookup-add_self :
      (clock : ℕ → ℕ) (now id : ℕ) (a : A) (c : Cache A)
      → (add p clock now id a c).1 ≡ true
      → lookup id (add p clock now id a c).0 ≡ some a
  unfolding add
  lookup-add_self clock now id a c e =
      elim (Bool-cases (not (c.limit == 0) && leb c.limit (length c.cachemap))) [
        | inr below ↦ rw below (store_self now id a c)
        | inl full ↦ elim (Bool-cases (evict p clock c).1) [
          | inl room ↦ rw (full, room) (store_self now id a (evict p clock c).0)
          | inr no_room ↦ let f : false ≡ true = rw (full, no_room) at e in cc
        ]
      ]

  -- In a cache in key order, what is found after an `add` under another ID, or under any ID where the
  -- `add` fails, is what was there before, or nothing.
  pub lookup-add_other :
      (clock : ℕ → ℕ) (now id j : ℕ) (a : A) (c : Cache A)
      → Sorted 0 c.cachemap
      → ((add p clock now id a c).1 ≡ false) ⊎ (j ≢ id)
      → (lookup j (add p clock now id a c).0 ≡ none)
        ⊎ (lookup j (add p clock now id a c).0 ≡ lookup j c)
  unfolding add
  lookup-add_other clock now id j a c s h =
      let w = lookup-Within j c (evict p clock c).0 (evict-Within clock c s) in
      elim (Bool-cases (not (c.limit == 0) && leb c.limit (length c.cachemap))) [
        | inr below ↦ elim h [
          | inl e ↦ let f : true ≡ false = rw below at e in cc
          | inr ne ↦ rw below (inr (store_other now id j a c ne))
        ]
        | inl full ↦ elim (Bool-cases (evict p clock c).1) [
          | inl room ↦ elim h [
            | inl e ↦ let f : true ≡ false = rw (full, room) at e in cc
            | inr ne ↦ rw (full, room, store_other now id j a (evict p clock c).0 ne) w
          ]
          | inr no_room ↦ rw (full, no_room) w
        ]
      ]

  -- An entry that the policy keeps, or that refuses to die.
  abbrev pub stays : ℕ → ℕ → Option (MapContent A) → Option (MapContent A)
  stays now j none = none
  stays now j (some mc) =
      if not (p.keep_entry mc.policy_data now) && p.prepare_to_die j mc.content
      then none
      else some mc

  -- A `tidy` of a map in key order keeps, unchanged, the entries that the policy keeps and those that
  -- refuse to die, and no others.
  pub find-tidy_map :
      (now lo j : ℕ) (m : MapType A)
      → Sorted lo m
      → find j (tidy_map p now m) ≡ stays now j (find j m)
  unfolding find tidy_map
  find-tidy_map now lo j [] s = refl
  find-tidy_map now lo j ((k, mk) ∷ m) s =
      let ih = find-tidy_map now (suc k) j m s.1 in
      elim (Bool-cases (j == k)) [
        | inl same ↦
            let e : j ≡ k = ground arith in
            elim (Bool-cases
              (not (p.keep_entry mk.policy_data now) && p.prepare_to_die k mk.content)) [
                | inl dies ↦
                    rw (dies, same, e, dies)
                      (find-tidy_map now (suc k) k m s.1
                        ∙ ap (stays now k) (find_below k (suc k) m (omega arith) s.1))
                | inr lives ↦ rw (lives, same, e, lives)
              ]
        | inr other ↦
            elim (Bool-cases
              (not (p.keep_entry mk.policy_data now) && p.prepare_to_die k mk.content)) [
                | inl dies ↦ rw (dies, other) ih
                | inr lives ↦ rw (lives, other) ih
              ]
      ]
