-- ===== src/Ring.antt =====
-- libs/ring/ot-ring.h: the fixed-size message queue `Buffer<ITEM_T>`.
-- An `unsigned` is 32 bits wide. `fresh` stands for a default-constructed ITEM_T, with which the
-- constructor fills the vector. An index outside of the vector is undefined behaviour in C++; here
-- such a read gives `fresh` and such a write is lost, and `IsValid` excludes both.
pub mod Window
pub mod Queue
pub mod Threads
mod Examples
use obtools.Common.{
  ℕ, zero, suc, ◌+◌, ◌-◌, ◌%◌, ◌^◌, ◌≤◌, ◌<◌, Bool, true, false, Option, none, some, List, [], ◌∷◌,
  leb, ltb, ◌==◌, if◌then◌else◌, length, get_or, set, replicate,
}

pub record Buffer {ℓ} (A : Type ℓ) : Type ℓ where
  pub items : List A
  pub in_index : ℕ
  pub out_index : ℕ

module _ {ℓ} {A : Type ℓ} where
  -- `++n` wraps at 32 bits before it is compared with the size.
  pub inc : Buffer A → ℕ → ℕ
  inc b n = let m = (n + 1) % 2 ^ 32 in if leb (length b.items) m then 0 else m

  -- Buffer(int length): items(length+1)
  pub make : A → ℕ → Buffer A
  make fresh n = record { items = replicate (n + 1) fresh; in_index = 0; out_index = 0 }

  pub put : A → Buffer A → Buffer A × Bool
  put item b =
      let next_in_index = inc b b.in_index in
      if next_in_index == b.out_index
      then (b, false)
      else (record b { items = set b.items b.in_index item; in_index = next_in_index }, true)

  -- The fetched item, or `none` where the source returns false.
  pub get : A → Buffer A → Buffer A × Option A
  get fresh b =
      if b.out_index == b.in_index
      then (b, none)
      else (record b { out_index = inc b b.out_index }, some (get_or b.items b.out_index fresh))

  pub flush_from_put : Buffer A → Buffer A
  flush_from_put b = record b { in_index = b.out_index }

  pub flush_from_get : Buffer A → Buffer A
  flush_from_get b = record b { out_index = b.in_index }

  pub size : Buffer A → ℕ
  size b = length b.items - 1

  pub used : Buffer A → ℕ
  used b =
      if leb b.out_index b.in_index
      then b.in_index - b.out_index
      else b.in_index + length b.items - b.out_index

  -- Both indices lie in the vector, whose size the constructor takes from an `int`.
  pub record IsValid (b : Buffer A) : Type 0 where
    pub in_range : b.in_index < length b.items
    pub out_range : b.out_index < length b.items
    pub small : length b.items ≤ 2 ^ 31

  -- The abstract view: the items from `out_index` on, oldest first.
  pub window : A → Buffer A → ℕ → ℕ → List A
  window fresh b zero i = []
  window fresh b (suc n) i = get_or b.items i fresh ∷ window fresh b n (inc b i)

  pub contents : A → Buffer A → List A
  unfolding window
  contents fresh b = window fresh b (used b) b.out_index
