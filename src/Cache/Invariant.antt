-- ===== src/Cache/Invariant.antt =====
-- The well-formedness of `TtlLruCache`: the list and the map hold the same keys, each once, and no
-- more of them than the capacity.
use libschemaregistry.Cache.Counts.{
  count, count-remove, length-remove, count-pop_back, length-pop_back, back-some, count-back,
  entries_of, entries_of-erase, length-erase, entries_of-none, entries_of-some, entries_of-insert,
  length-insert,
}
use libschemaregistry.Cache.{
  Cache, Entry, back, drop_key, drop_keys, expired_keys, cleanup_expired, move_to_front, evict_lru,
  make_room, has_ttl, is_expired, get_found, get, add_entry, put, clear,
}
use libschemaregistry.Prelude.Dict.{lookup, insert, lookup-erase}
use libschemaregistry.Prelude.{
  ℕ, zero, suc, ◌-◌, ◌≤◌, ◌<◌, List, [], ◌∷◌, none, some, ◌≡◌, refl, inl, inr, Bool-cases,
  Option-cases, arith, length, leb,
}

module _ {K V : Type 0} (dec : Discrete K) where
  pub record IsValid (c : Cache K V) : Type 0 where
    pub positive : 0 < c.capacity
    pub bounded : length c.entries ≤ c.capacity
    pub same : (k : K) → count dec k c.lru_list ≡ entries_of dec k c.entries
    pub once : (k : K) → count dec k c.lru_list ≤ 1
    pub lengths : length c.lru_list ≡ length c.entries

  drop_key-IsValid : (k : K) (c : Cache K V) → IsValid c → IsValid (drop_key dec k c)
  unfolding drop_key
  drop_key-IsValid k c v = record {
    positive = v.positive;
    bounded = omega (arith, v.bounded, length-erase dec k c.entries);
    same = λ j.
        ground
          (arith, v.same j, count-remove dec k j c.lru_list, entries_of-erase dec k j c.entries);
    once = λ j. ground (arith, v.once j, count-remove dec k j c.lru_list);
    lengths =
        omega (
          arith,
          v.lengths,
          v.same k,
          length-remove dec k c.lru_list,
          length-erase dec k c.entries,
        );
  }

  drop_keys-IsValid : (ks : List K) (c : Cache K V) → IsValid c → IsValid (drop_keys dec ks c)
  unfolding drop_keys
  drop_keys-IsValid [] c v = v
  drop_keys-IsValid (k ∷ ks) c v = drop_keys-IsValid ks (drop_key dec k c) (drop_key-IsValid k c v)

  pub cleanup_expired-IsValid :
      (now : ℕ) (c : Cache K V) → IsValid c → IsValid (cleanup_expired dec now c)
  unfolding cleanup_expired
  cleanup_expired-IsValid now c v = drop_keys-IsValid (expired_keys c.ttl now c.entries) c v

  -- Moving a key that is there, after its entry may have been overwritten.
  overwrite-IsValid :
      (k : K) (e e' : Entry V) (c : Cache K V)
      → lookup dec k c.entries ≡ some e
      → IsValid c
      → IsValid (move_to_front dec k (record c { entries = insert dec k e' c.entries }))
  unfolding move_to_front count
  overwrite-IsValid k e e' c h v = record {
    positive = v.positive;
    bounded = ground (arith, v.bounded, length-insert dec k e' c.entries);
    same = λ j. ground (
      arith,
      v.same j,
      v.once j,
      count-remove dec k j c.lru_list,
      entries_of-insert dec k j e' c.entries,
      entries_of-some dec k e c.entries h,
    );
    once = λ j. ground (arith, v.once j, count-remove dec k j c.lru_list);
    lengths = ground (
      arith,
      v.lengths,
      v.same k,
      v.once k,
      length-remove dec k c.lru_list,
      length-insert dec k e' c.entries,
      entries_of-some dec k e c.entries h,
    );
  }

  move_to_front-IsValid :
      (k : K) (e : Entry V) (c : Cache K V)
      → lookup dec k c.entries ≡ some e
      → IsValid c
      → IsValid (move_to_front dec k c)
  unfolding move_to_front count
  move_to_front-IsValid k e c h v = record {
    positive = v.positive;
    bounded = v.bounded;
    same = λ j. ground (
      arith,
      v.same j,
      v.once j,
      count-remove dec k j c.lru_list,
      entries_of-some dec k e c.entries h,
    );
    once = λ j. ground (arith, v.once j, count-remove dec k j c.lru_list);
    lengths = omega (
      arith,
      v.lengths,
      v.same k,
      v.once k,
      length-remove dec k c.lru_list,
      entries_of-some dec k e c.entries h,
    );
  }

  get_found-IsValid :
      (k : K) (e : Entry V) (now : ℕ) (c : Cache K V)
      → lookup dec k c.entries ≡ some e
      → IsValid c
      → IsValid (get_found dec k e now c).0
  unfolding get_found
  get_found-IsValid k e now c h v =
      let fresh : Entry V = record e { timestamp = now } in
      elim (Bool-cases (has_ttl c.ttl)) [
        | inr off ↦ rw off (move_to_front-IsValid k e c h v)
        | inl on ↦ elim (Bool-cases (is_expired c.ttl now e)) [
          | inl old ↦ rw (on, old) (drop_key-IsValid k c v)
          | inr live ↦ rw (on, live) (overwrite-IsValid k e fresh c h v)
        ]
      ]

  -- `get` keeps a well-formed cache well formed, whether it finds the key or not.
  pub get-IsValid :
      (k : K) (now1 now2 : ℕ) (c : Cache K V) → IsValid c → IsValid (get dec k now1 now2 c).0
  unfolding get
  get-IsValid k now1 now2 c v =
      let c1 = cleanup_expired dec now1 c in
      let v1 = cleanup_expired-IsValid now1 c v in
      elim (Option-cases (lookup dec k c1.entries)) [
        | inl miss ↦ rw (miss, get) v1
        | inr (e, hit) ↦ rw (hit, get) (get_found-IsValid k e now2 c1 hit v1)
      ]

  -- With an entry in the cache there is a least recently used key, and evicting it makes the cache
  -- smaller by one entry.
  pub evict_lru-IsValid :
      (c : Cache K V) (n : ℕ)
      → length c.entries ≡ suc n
      → IsValid c
      → IsValid (evict_lru dec c) × (length (evict_lru dec c).entries ≡ n)
  unfolding evict_lru
  evict_lru-IsValid c n e v =
      let (x, last) = back-some n c.lru_list (omega (arith, v.lengths)) in
      let one : entries_of dec x c.entries ≡ 1 =
        omega (arith, v.same x, v.once x, count-back dec x c.lru_list last) in
      rw (last, evict_lru)
        (
          record {
            positive = v.positive;
            bounded = omega (arith, v.bounded, length-erase dec x c.entries);
            same = λ j. ground (
              arith,
              v.same j,
              v.once j,
              count-pop_back dec x j c.lru_list last,
              entries_of-erase dec x j c.entries,
            );
            once = λ j. omega (arith, v.once j, count-pop_back dec x j c.lru_list last);
            lengths = omega (
              arith,
              v.lengths,
              one,
              length-pop_back x c.lru_list last,
              length-erase dec x c.entries,
            );
          },
          omega (arith, one, length-erase dec x c.entries),
        )

  -- What is not in the cache is not there after keys have gone.
  drop_keys-absent :
      (k : K) (ks : List K) (c : Cache K V)
      → lookup dec k c.entries ≡ none
      → lookup dec k (drop_keys dec ks c).entries ≡ none
  unfolding drop_keys drop_key
  drop_keys-absent k [] c h = h
  drop_keys-absent k (j ∷ ks) c h =
      drop_keys-absent k ks (drop_key dec j c) (ground (arith, lookup-erase dec k j c.entries))

  evict_lru-absent :
      (k : K) (c : Cache K V)
      → lookup dec k c.entries ≡ none
      → lookup dec k (evict_lru dec c).entries ≡ none
  unfolding evict_lru
  evict_lru-absent k c h = elim (Option-cases (back c.lru_list)) [
    | inl empty ↦ rw (empty, evict_lru) h
    | inr (x, last) ↦ rw (last, evict_lru) (ground (arith, lookup-erase dec k x c.entries))
  ]

  -- The eviction loop ends, with room for one entry.
  make_room-IsValid :
      (k : K) (fuel : ℕ) (c : Cache K V)
      → length c.entries < fuel
      → lookup dec k c.entries ≡ none
      → IsValid c
      → (c' : Cache K V) × (make_room dec fuel c ≡ some c')
        × IsValid c'
        × (length c'.entries < c'.capacity)
        × (lookup dec k c'.entries ≡ none)
  unfolding make_room
  make_room-IsValid k zero c h a v = absurd (omega arith)
  make_room-IsValid k (suc fuel) c h a v = elim (Bool-cases (leb c.capacity (length c.entries))) [
    | inl full ↦
        let some_entry : 0 < length c.entries = ground (arith, v.positive) in
        let (v', n) = evict_lru-IsValid c (length c.entries - 1) (omega arith) v in
        rw full
          (make_room-IsValid k fuel (evict_lru dec c) (omega arith) (evict_lru-absent k c a) v')
    | inr room ↦ rw room (c, refl, v, ground arith, a)
  ]

  add_entry-IsValid :
      (k : K) (e : Entry V) (c : Cache K V)
      → lookup dec k c.entries ≡ none
      → length c.entries < c.capacity
      → IsValid c
      → IsValid (add_entry dec k e c)
  unfolding add_entry count
  add_entry-IsValid k e c a room v = record {
    positive = v.positive;
    bounded = ground (arith, length-insert dec k e c.entries);
    same = λ j. ground (arith, v.same j, entries_of-insert dec k j e c.entries);
    once = λ j. ground (arith, v.once j, v.same k, entries_of-none dec k c.entries a);
    lengths = ground (arith, v.lengths, length-insert dec k e c.entries);
  }

  -- On a well-formed cache `put` ends, and leaves a well-formed cache: never more entries than the
  -- capacity, and no key that stands in one of the list and the map only.
  pub put-IsValid :
      (k : K) (x : V) (now1 now2 : ℕ) (c : Cache K V)
      → IsValid c
      → (c' : Cache K V) × (put dec k x now1 now2 c ≡ some c') × IsValid c'
  unfolding put
  put-IsValid k x now1 now2 c v =
      let e : Entry V = record { value = x; timestamp = now1 } in
      elim (Option-cases (lookup dec k c.entries)) [
        | inr (old, hit) ↦ (_, rw (hit, put), overwrite-IsValid k old e c hit v)
        | inl miss ↦
            let c1 = cleanup_expired dec now2 c in
            let a1 = drop_keys-absent k (expired_keys c.ttl now2 c.entries) c miss in
            let (c2, made, v2, room, a2) =
              make_room-IsValid k (suc (length c1.entries)) c1 (omega arith)
                (unfold cleanup_expired in a1) (cleanup_expired-IsValid now2 c v) in
            (add_entry dec k e c2, rw (miss, put) (rw made), add_entry-IsValid k e c2 a2 room v2)
      ]

  pub clear-IsValid : (c : Cache K V) → IsValid c → IsValid (clear dec c)
  unfolding clear count
  clear-IsValid c v = record {
    positive = v.positive;
    bounded = omega arith;
    same = λ k. refl;
    once = λ k. omega arith;
    lengths = refl;
  }
