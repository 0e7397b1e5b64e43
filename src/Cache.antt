-- ===== src/Cache.antt =====
-- `TtlLruCache` (include/schemaregistry/rest/TtlLruCache.h): a bounded map with a time to live and
-- eviction of the least recently used key. Each method holds the mutex to its end, so a method is
-- one function on the state. A reading of the steady clock is an argument, in ticks, and so is the
-- time to live; none stands for `seconds::max()`, which turns expiry off. The iterator that an
-- entry keeps designates the node of the list that holds the entry's key.
pub mod Counts
pub mod Invariant
pub mod Views
pub mod Values
use libschemaregistry.Prelude.Dict.{Dict, lookup, insert, erase}
use libschemaregistry.Prelude.{
  ℕ, zero, suc, ◌-◌, not, Bool, true, false, List, [], ◌∷◌, Option, none, some, ite, ltb, leb,
  if◌then◌else◌, length,
}

pub record Entry {ℓ} (V : Type ℓ) : Type ℓ where
  pub value : V
  pub timestamp : ℕ

pub record Cache {ℓ} (K V : Type ℓ) : Type ℓ where
  pub entries : Dict K (Entry V)
  -- most recently used first
  pub lru_list : List K
  pub capacity : ℕ
  pub ttl : Option ℕ

-- The constructor, which refuses a capacity of 0.
unfoldable pub init {ℓ} : {K V : Type ℓ} → ℕ → Option ℕ → Option (Cache K V)
init capacity ttl =
    if leb capacity 0
    then none
    else some (record { entries = []; lru_list = []; capacity = capacity; ttl = ttl })

-- `ttl_ != std::chrono::seconds::max()`
unfoldable pub has_ttl : Option ℕ → Bool
has_ttl none = false
has_ttl (some _) = true

unfoldable pub is_expired {ℓ} : {V : Type ℓ} → Option ℕ → ℕ → Entry V → Bool
is_expired none now e = false
is_expired (some ttl) now e = ltb ttl (now - e.timestamp)

-- `expired_keys` of the cleanup.
module _ {ℓ} {K V : Type ℓ} where
  unfoldable pub expired_keys : Option ℕ → ℕ → Dict K (Entry V) → List K
  expired_keys ttl now [] = []
  expired_keys ttl now ((k, e) ∷ m) =
      let rest = expired_keys ttl now m in if is_expired ttl now e then k ∷ rest else rest

module _ {ℓ} {K : Type ℓ} where
  -- `lru_list_.back()` and `lru_list_.pop_back()`
  unfoldable pub back : List K → Option K
  back [] = none
  back (x ∷ []) = some x
  back (x ∷ y ∷ xs) = back (y ∷ xs)

  unfoldable pub pop_back : List K → List K
  pop_back [] = []
  pop_back (x ∷ []) = []
  pop_back (x ∷ y ∷ xs) = x ∷ pop_back (y ∷ xs)

-- `lru_list_.erase(it)`, for the iterator of a key
unfoldable pub remove {ℓ} : {K : Type ℓ} → Discrete K → K → List K → List K
remove dec k [] = []
remove dec k (j ∷ xs) = let rest = remove dec k xs in ite (dec j k) rest (j ∷ rest)

module _ {ℓ} {K V : Type ℓ} (dec : Discrete K) where
  unfoldable pub drop_key : K → Cache K V → Cache K V
  drop_key k c = record c { entries = erase dec k c.entries; lru_list = remove dec k c.lru_list }

  unfoldable pub drop_keys : List K → Cache K V → Cache K V
  drop_keys [] c = c
  drop_keys (k ∷ ks) c = drop_keys ks (drop_key k c)

  -- `cleanup_expired_unsafe`
  unfoldable pub cleanup_expired : ℕ → Cache K V → Cache K V
  cleanup_expired now c = drop_keys (expired_keys c.ttl now c.entries) c

  -- `move_to_front_unsafe`
  unfoldable pub move_to_front : K → Cache K V → Cache K V
  move_to_front k c = record c { lru_list = k ∷ remove dec k c.lru_list }

  -- `evict_lru_unsafe`
  unfoldable pub evict_lru : Cache K V → Cache K V
  evict_lru c = elim (back c.lru_list) [
    | none ↦ c
    | some k ↦ record c { entries = erase dec k c.entries; lru_list = pop_back c.lru_list }
  ]

  -- `while (cache_.size() >= capacity_) evict_lru_unsafe();` on fuel: `none` means that it ran out.
  unfoldable pub make_room : ℕ → Cache K V → Option (Cache K V)
  make_room zero c = none
  make_room (suc fuel) c =
      let rest = make_room fuel (evict_lru c) in
      if leb c.capacity (length c.entries) then rest else some c

  -- `get` on an entry that the cleanup left.
  unfoldable pub get_found : K → Entry V → ℕ → Cache K V → Cache K V × Option V
  get_found k e now c =
      if not (has_ttl c.ttl)
      then (move_to_front k c, some e.value)
      else if is_expired c.ttl now e
      then (drop_key k c, none)
      else (let fresh = record e { timestamp = now } in
          (move_to_front k (record c { entries = insert dec k fresh c.entries }), some e.value))

  -- The clock is read by the cleanup, and again for the entry that is found.
  unfoldable pub get : K → ℕ → ℕ → Cache K V → Cache K V × Option V
  get k now1 now2 c =
      let c1 = cleanup_expired now1 c in
      elim (lookup dec k c1.entries) [ none ↦ (c1, none) | some e ↦ get_found k e now2 c1 ]

  -- The new entry, in front.
  unfoldable pub add_entry : K → Entry V → Cache K V → Cache K V
  add_entry k e c = record c { entries = insert dec k e c.entries; lru_list = k ∷ c.lru_list }

  -- `none` means that the eviction loop ran out of fuel; it has one round more than there are
  -- entries.
  unfoldable pub put : K → V → ℕ → ℕ → Cache K V → Option (Cache K V)
  put k v now1 now2 c =
      let e : Entry V = record { value = v; timestamp = now1 } in
      elim (lookup dec k c.entries) [
        | some _ ↦ some (move_to_front k (record c { entries = insert dec k e c.entries }))
        | none ↦
            let c1 = cleanup_expired now2 c in
            elim (make_room (suc (length c1.entries)) c1) [
              | none ↦ none
              | some c2 ↦ some (add_entry k e c2)
            ]
      ]

  unfoldable pub clear : Cache K V → Cache K V
  clear c = record c { entries = []; lru_list = [] }

  unfoldable pub size : Cache K V → ℕ
  size c = length c.entries
