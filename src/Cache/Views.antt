-- ===== src/Cache/Views.antt =====
-- What a caller can read from `TtlLruCache`: the value of a key as long as it has not expired.
use libschemaregistry.Cache.{
  Cache, Entry, remove, back, has_ttl, is_expired, drop_key, drop_keys, expired_keys,
  cleanup_expired, move_to_front, get_found, get, add_entry, make_room, evict_lru, put,
}
use libschemaregistry.Cache.Counts.{count, entries_of}
use libschemaregistry.Cache.Invariant.{IsValid, evict_lru-IsValid, cleanup_expired-IsValid}
use libschemaregistry.Prelude.Dict.{Dict, lookup, lookup-insert, lookup-erase}
use libschemaregistry.Prelude.{
  ℕ, zero, suc, ◌-◌, ◌≤◌, ◌<◌, List, [], ◌∷◌, Bool, true, false, Option, none, some, ite, ◌≡◌, ◌∙◌,
  refl, inl, inr, Option-cases, arith, length, if◌then◌else◌,
}

mem_key : {K : Type 0} → Discrete K → K → List K → Bool
mem_key dec k [] = false
mem_key dec k (j ∷ js) = let rest = mem_key dec k js in ite (dec j k) true rest

module _ {K V : Type 0} (dec : Discrete K) where
  abbrev live : Option ℕ → ℕ → Option (Entry V) → Option (Entry V)
  live ttl now none = none
  live ttl now (some e) = if is_expired ttl now e then none else some e

  -- The entry of a key, unless it has expired.
  abbrev pub live_entry : K → ℕ → Cache K V → Option (Entry V)
  live_entry k now c = live c.ttl now (lookup dec k c.entries)

  abbrev pub value_of : Option (Entry V) → Option V
  value_of none = none
  value_of (some e) = some e.value

  lookup-drop_keys :
      (k : K) (ks : List K) (c : Cache K V)
      → lookup dec k (drop_keys dec ks c).entries
        ≡ (if mem_key dec k ks then none else lookup dec k c.entries)
  unfolding drop_keys drop_key mem_key
  lookup-drop_keys k [] c = refl
  lookup-drop_keys k (j ∷ ks) c =
      ground (arith, lookup-drop_keys k ks (drop_key dec j c), lookup-erase dec k j c.entries)

  ttl-drop_keys : (ks : List K) (c : Cache K V) → (drop_keys dec ks c).ttl ≡ c.ttl
  unfolding drop_keys drop_key
  ttl-drop_keys [] c = refl
  ttl-drop_keys (k ∷ ks) c = ttl-drop_keys ks (drop_key dec k c)

  expired_keys-absent :
      (ttl : Option ℕ) (now : ℕ) (k : K) (m : Dict K (Entry V))
      → entries_of dec k m ≡ 0
      → mem_key dec k (expired_keys ttl now m) ≡ false
  unfolding count mem_key expired_keys
  expired_keys-absent ttl now k [] h = refl
  expired_keys-absent ttl now k ((i, e) ∷ m) h = ground (arith, expired_keys-absent ttl now k m)

  expired_keys-live :
      (ttl : Option ℕ) (now : ℕ) (k : K) (m : Dict K (Entry V))
      → entries_of dec k m ≤ 1
      → (if mem_key dec k (expired_keys ttl now m) then none else lookup dec k m)
        ≡ live ttl now (lookup dec k m)
  unfolding count mem_key expired_keys lookup
  expired_keys-live ttl now k [] h = refl
  expired_keys-live ttl now k ((i, e) ∷ m) h =
      ground (arith, expired_keys-live ttl now k m, expired_keys-absent ttl now k m)

  -- After a cleanup exactly the live entries are left.
  lookup-cleanup_expired :
      (k : K) (now : ℕ) (c : Cache K V)
      → IsValid dec c
      → lookup dec k (cleanup_expired dec now c).entries ≡ live_entry k now c
  unfolding cleanup_expired
  lookup-cleanup_expired k now c v =
      lookup-drop_keys k (expired_keys c.ttl now c.entries) c
      ∙ expired_keys-live c.ttl now k c.entries (omega (arith, v.same k, v.once k))

  ttl-cleanup_expired : (now : ℕ) (c : Cache K V) → (cleanup_expired dec now c).ttl ≡ c.ttl
  unfolding cleanup_expired
  ttl-cleanup_expired now c = ttl-drop_keys (expired_keys c.ttl now c.entries) c

  is_expired-later :
      (ttl : Option ℕ) (now1 now2 : ℕ) (e : Entry V)
      → now1 ≤ now2
      → is_expired ttl now1 e ≡ true
      → is_expired ttl now2 e ≡ true
  unfolding is_expired
  is_expired-later ttl now1 now2 e h p = ground arith

  value-get_found :
      (k : K) (e : Entry V) (now : ℕ) (c : Cache K V)
      → (get_found dec k e now c).1 ≡ (if is_expired c.ttl now e then none else some e.value)
  unfolding get_found has_ttl is_expired
  value-get_found k e now c = ground arith

  -- On a valid cache, with a clock that does not run backwards, `get` returns the value of the key
  -- exactly if it is in the cache and has not expired at the second reading of the clock.
  pub get-live_entry :
      (k : K) (now1 now2 : ℕ) (c : Cache K V)
      → IsValid dec c
      → now1 ≤ now2
      → (get dec k now1 now2 c).1 ≡ value_of (live_entry k now2 c)
  unfolding get
  get-live_entry k now1 now2 c v h =
      let c1 = cleanup_expired dec now1 c in
      elim (Option-cases (lookup dec k c.entries)) [
        | inl miss ↦ ground (arith, lookup-cleanup_expired k now1 c v)
        | inr (e, hit) ↦ ground (
          arith,
          lookup-cleanup_expired k now1 c v,
          value-get_found k e now2 c1,
          ttl-cleanup_expired now1 c,
          is_expired-later c.ttl now1 now2 e h,
        )
      ]

  capacity-evict_lru : (c : Cache K V) → (evict_lru dec c).capacity ≡ c.capacity
  unfolding evict_lru
  capacity-evict_lru c = ground arith

  lookup-evict_lru :
      (j x : K) (c : Cache K V)
      → back c.lru_list ≡ some x
      → lookup dec j (evict_lru dec c).entries ≡ ite (dec x j) none (lookup dec j c.entries)
  unfolding evict_lru
  lookup-evict_lru j x c last = rw (last, evict_lru) (lookup-erase dec j x c.entries)

  -- On a well-formed cache the eviction loop evicts nothing, or the least recently used key.
  make_room-room :
      (n : ℕ) (c : Cache K V) → length c.entries < c.capacity → make_room dec (suc n) c ≡ some c
  unfolding make_room
  make_room-room n c h = ground arith

  make_room-full :
      (fuel : ℕ) (c : Cache K V)
      → 1 < fuel
      → IsValid dec c
      → length c.entries ≡ c.capacity
      → make_room dec fuel c ≡ some (evict_lru dec c)
  unfolding make_room
  make_room-full zero c f v h = absurd (omega arith)
  make_room-full (suc zero) c f v h = absurd (omega arith)
  make_room-full (suc (suc n)) c f v h =
      let (v', less) =
        evict_lru-IsValid dec c (length c.entries - 1) (omega (arith, v.positive)) v in
      ground (arith, v.positive, less, capacity-evict_lru c)

  capacity-drop_keys : (ks : List K) (c : Cache K V) → (drop_keys dec ks c).capacity ≡ c.capacity
  unfolding drop_keys drop_key
  capacity-drop_keys [] c = refl
  capacity-drop_keys (k ∷ ks) c = capacity-drop_keys ks (drop_key dec k c)

  capacity-cleanup_expired :
      (now : ℕ) (c : Cache K V) → (cleanup_expired dec now c).capacity ≡ c.capacity
  unfolding cleanup_expired
  capacity-cleanup_expired now c = capacity-drop_keys (expired_keys c.ttl now c.entries) c

  -- `put` on a key that is in the cache moves the key to the front of the list and overwrites its
  -- entry; the entry of every other key stays, expired or not.
  pub put-overwrites :
      (k j : K) (x : V) (old : Entry V) (now1 now2 : ℕ) (c c' : Cache K V)
      → lookup dec k c.entries ≡ some old
      → put dec k x now1 now2 c ≡ some c'
      → (c'.lru_list ≡ k ∷ remove dec k c.lru_list)
        × (lookup dec j c'.entries
            ≡ ite
                (dec k j)
                (some (record { value = x; timestamp = now1 }))
                (lookup dec j c.entries))
  unfolding put move_to_front
  put-overwrites k j x old now1 now2 c c' hit h =
      ground (arith, lookup-insert dec j k (record { value = x; timestamp = now1 }) c.entries)

  -- `put` of a new key into a well-formed cache, where the live entries leave room: afterwards the
  -- cache holds the new entry and, of the other keys, exactly the live entries.
  pub put-adds :
      (k j : K) (x : V) (now1 now2 : ℕ) (c c' : Cache K V)
      → IsValid dec c
      → lookup dec k c.entries ≡ none
      → length (cleanup_expired dec now2 c).entries < c.capacity
      → put dec k x now1 now2 c ≡ some c'
      → lookup dec j c'.entries
        ≡ ite (dec k j) (some (record { value = x; timestamp = now1 })) (live_entry j now2 c)
  unfolding put add_entry
  put-adds k j x now1 now2 c c' v miss room h =
      let c1 = cleanup_expired dec now2 c in
      let e : Entry V = record { value = x; timestamp = now1 } in
      ground (
        arith,
        make_room-room (length c1.entries) c1,
        capacity-cleanup_expired now2 c,
        lookup-insert dec j k e c1.entries,
        lookup-cleanup_expired j now2 c v,
      )

  -- `put` of a new key into a well-formed cache, where the live entries fill it: afterwards the
  -- cache holds the new entry and, of the other keys, the live entries except that of the least
  -- recently used live key.
  pub put-evicts :
      (k j least : K) (x : V) (now1 now2 : ℕ) (c c' : Cache K V)
      → IsValid dec c
      → lookup dec k c.entries ≡ none
      → length (cleanup_expired dec now2 c).entries ≡ c.capacity
      → back (cleanup_expired dec now2 c).lru_list ≡ some least
      → put dec k x now1 now2 c ≡ some c'
      → lookup dec j c'.entries
        ≡ ite
            (dec k j)
            (some (record { value = x; timestamp = now1 }))
            (ite (dec least j) none (live_entry j now2 c))
  unfolding put add_entry
  put-evicts k j least x now1 now2 c c' v miss full last h =
      let c1 = cleanup_expired dec now2 c in
      let e : Entry V = record { value = x; timestamp = now1 } in
      let cap = capacity-cleanup_expired now2 c in
      ground (
        arith,
        make_room-full (suc (length c1.entries)) c1 (omega (arith, v.positive))
            (cleanup_expired-IsValid dec now2 c v) (omega arith),
        lookup-insert dec j k e (evict_lru dec c1).entries,
        lookup-evict_lru j least c1 last,
        lookup-cleanup_expired j now2 c v,
      )
