-- ===== src/Cache/Values.antt =====
-- What holds of every key and its value in a `TtlLruCache`, through its methods.
use libschemaregistry.Cache.Counts.{count}
use libschemaregistry.Cache.Invariant.{IsValid}
use libschemaregistry.Cache.{
  init, Cache, Entry, drop_key, drop_keys, expired_keys, cleanup_expired, move_to_front, get_found,
  get, add_entry, make_room, evict_lru, put, clear, back, has_ttl, is_expired,
}
use libschemaregistry.Prelude.Dict.{lookup, insert, lookup-insert, lookup-erase}
use libschemaregistry.Prelude.{
  ◌<◌, Option, ℕ, zero, suc, List, [], ◌∷◌, some, ◌≡◌, inl, inr, Bool-cases, Option-cases, arith,
  length, leb, subst,
}

module _ {K V : Type 0} (dec : Discrete K) where
  -- Every entry's value is one that `P` allows for its key.
  abbrev pub Values : (K → V → Type 0) → Cache K V → Type 0
  Values P c = (k : K) (e : Entry V) → lookup dec k c.entries ≡ some e → P k e.value

  module _ (P : K → V → Type 0) where
    drop_key-Values : (k : K) (c : Cache K V) → Values P c → Values P (drop_key dec k c)
    unfolding drop_key
    drop_key-Values k c h j e q = h j e (ground (arith, lookup-erase dec j k c.entries))

    drop_keys-Values : (ks : List K) (c : Cache K V) → Values P c → Values P (drop_keys dec ks c)
    unfolding drop_keys
    drop_keys-Values [] c h = h
    drop_keys-Values (k ∷ ks) c h = drop_keys-Values ks (drop_key dec k c) (drop_key-Values k c h)

    cleanup_expired-Values :
        (now : ℕ) (c : Cache K V) → Values P c → Values P (cleanup_expired dec now c)
    unfolding cleanup_expired
    cleanup_expired-Values now c h = drop_keys-Values (expired_keys c.ttl now c.entries) c h

    evict_lru-Values : (c : Cache K V) → Values P c → Values P (evict_lru dec c)
    unfolding evict_lru
    evict_lru-Values c h j e q = elim (Option-cases (back c.lru_list)) [
      | inl none_left ↦ h j e (ground arith)
      | inr (k, last) ↦ h j e (ground (arith, lookup-erase dec j k c.entries))
    ]

    insert-Values :
        (k : K) (x : V) (now : ℕ) (c : Cache K V)
        → P k x
        → Values P c
        → Values P
            (record c { entries = insert dec k (record { value = x; timestamp = now }) c.entries })
    insert-Values k x now c p h j e q =
        let there = lookup-insert dec j k (record { value = x; timestamp = now }) c.entries in
        elim (dec k j) [
          | yes same ↦ ground (arith, there, h j e)
          | no other ↦ h j e (ground (arith, there))
        ]

    make_room-Values :
        (fuel : ℕ) (c c' : Cache K V) → Values P c → make_room dec fuel c ≡ some c' → Values P c'
    unfolding make_room
    make_room-Values zero c c' h q = cc
    make_room-Values (suc fuel) c c' h q = elim (Bool-cases (leb c.capacity (length c.entries))) [
      | inl full ↦ make_room-Values fuel (evict_lru dec c) c' (evict_lru-Values c h) (ground arith)
      | inr room ↦ λ j e r. h j e (ground arith)
    ]

    get_found-Values :
        (k : K) (e : Entry V) (now : ℕ) (c : Cache K V)
        → lookup dec k c.entries ≡ some e
        → Values P c
        → Values P (get_found dec k e now c).0
    unfolding get_found move_to_front
    get_found-Values k e now c q h = elim (Bool-cases (has_ttl c.ttl)) [
      | inr off ↦ rw off h
      | inl on ↦ elim (Bool-cases (is_expired c.ttl now e)) [
        | inl old ↦ rw (on, old) (drop_key-Values k c h)
        | inr live ↦ rw (on, live) (insert-Values k e.value now c (h k e q) h)
      ]
    ]

    value-get_found :
        (k : K) (e : Entry V) (now : ℕ) (c : Cache K V) (x : V)
        → (get_found dec k e now c).1 ≡ some x
        → e.value ≡ x
    unfolding get_found
    value-get_found k e now c x q = ground arith

    -- `get` keeps what holds of every value, and what it returns is one of them.
    pub get-Values :
        (k : K) (now1 now2 : ℕ) (c : Cache K V)
        → Values P c
        → Values P (get dec k now1 now2 c).0
          × ((x : V) → (get dec k now1 now2 c).1 ≡ some x → P k x)
    unfolding get
    get-Values k now1 now2 c h =
        let c1 = cleanup_expired dec now1 c in
        let h1 = cleanup_expired-Values now1 c h in
        elim (Option-cases (lookup dec k c1.entries)) [
          | inl miss ↦ (λ j e q. h1 j e (ground arith), λ x q. absurd (ground arith))
          | inr (e, hit) ↦ (
            λ j e' q. get_found-Values k e now2 c1 hit h1 j e' (ground arith),
            λ x q. subst (P k) (value-get_found k e now2 c1 x (ground arith)) (h1 k e hit),
          )
        ]

    pub put-Values :
        (k : K) (x : V) (now1 now2 : ℕ) (c c' : Cache K V)
        → P k x
        → Values P c
        → put dec k x now1 now2 c ≡ some c'
        → Values P c'
    unfolding put move_to_front add_entry
    put-Values k x now1 now2 c c' p h q =
        let c1 = cleanup_expired dec now2 c in
        elim (Option-cases (lookup dec k c.entries)) [
          | inr (e, hit) ↦ λ j e' r. insert-Values k x now1 c p h j e' (ground arith)
          | inl miss ↦ elim (Option-cases (make_room dec (suc (length c1.entries)) c1)) [
            | inl out ↦ absurd (ground arith)
            | inr (c2, room) ↦ λ j e r.
                insert-Values k x now1 c2 p
                  (make_room-Values _ c1 c2 (cleanup_expired-Values now2 c h) room) j e
                  (ground arith)
          ]
        ]

    pub clear-Values : (c : Cache K V) → Values P (clear dec c)
    unfolding clear lookup
    clear-Values c k e q = cc q

  init-parts :
      (capacity : ℕ) (ttl : Option ℕ) (c : Cache K V)
      → init capacity ttl ≡ some c
      → (c.entries ≡ []) × (c.lru_list ≡ []) × (0 < c.capacity)
  unfolding init
  init-parts capacity ttl c h = ground arith

  -- What the constructor gives is well formed and empty.
  pub init-fresh :
      (P : K → V → Type 0) (capacity : ℕ) (ttl : Option ℕ) (c : Cache K V)
      → init capacity ttl ≡ some c
      → Values P c × IsValid dec c
  unfolding count lookup
  init-fresh P capacity ttl c h = (
    λ k e q. absurd (ground (arith, init-parts capacity ttl c h)),
    record {
      positive = (init-parts capacity ttl c h).2;
      bounded = ground (arith, init-parts capacity ttl c h);
      same = λ k. ground (arith, init-parts capacity ttl c h);
      once = λ k. ground (arith, init-parts capacity ttl c h);
      lengths = ground (arith, init-parts capacity ttl c h);
    },
  )
