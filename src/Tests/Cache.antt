-- ===== src/Tests/Cache.antt =====
-- The cache (include/schemaregistry/rest/TtlLruCache.h) at concrete inputs.
use libschemaregistry.Cache.{
  Cache, get, put, cleanup_expired, expired_keys, is_expired, drop_keys, drop_key, remove, back,
  make_room, evict_lru, add_entry, pop_back, has_ttl,
}
use libschemaregistry.Cache.Counts.{count}
use libschemaregistry.Cache.Invariant.{IsValid, put-IsValid}
use libschemaregistry.Cache.Views.{live_entry, value_of, get-live_entry, put-evicts}
use libschemaregistry.Prelude.Dict.{lookup, insert, erase}
use libschemaregistry.Prelude.{ℕ, [], ◌∷◌, none, some, ℕ_discrete, ite, ◌≡◌, refl, arith}

-- Two entries of a cache of two, of which the first is the older one; they live for ten ticks.
abbrev two_entries : Cache ℕ ℕ
two_entries = record {
  entries =
      (1, record { value = 10; timestamp = 100 })
      ∷ (2, record { value = 20; timestamp = 105 })
      ∷ [];
  lru_list = 2 ∷ 1 ∷ [];
  capacity = 2;
  ttl = some 10;
}

two_entries-IsValid : IsValid ℕ_discrete two_entries
unfolding count
two_entries-IsValid = record {
  positive = omega arith;
  bounded = omega arith;
  same = λ k. ground arith;
  once = λ k. ground arith;
  lengths = refl;
}

put-IsValid_example :
    (c' : Cache ℕ ℕ) × (put ℕ_discrete 3 30 106 106 two_entries ≡ some c') × IsValid ℕ_discrete c'
put-IsValid_example = put-IsValid ℕ_discrete 3 30 106 106 two_entries two_entries-IsValid

get-live_entry_example :
    (get ℕ_discrete 1 112 113 two_entries).1
    ≡ value_of ℕ_discrete (live_entry ℕ_discrete 1 113 two_entries)
get-live_entry_example =
    get-live_entry ℕ_discrete 1 112 113 two_entries two_entries-IsValid (omega arith)

abbrev first_overwritten : Cache ℕ ℕ
first_overwritten = record two_entries {
  entries =
      (1, record { value = 11; timestamp = 106 })
      ∷ (2, record { value = 20; timestamp = 105 })
      ∷ [];
  lru_list = 1 ∷ 2 ∷ [];
}

abbrev third_after_expiry : Cache ℕ ℕ
third_after_expiry = record two_entries {
  entries =
      (2, record { value = 20; timestamp = 105 })
      ∷ (3, record { value = 30; timestamp = 112 })
      ∷ [];
  lru_list = 3 ∷ 2 ∷ [];
}

abbrev third_after_eviction : Cache ℕ ℕ
third_after_eviction = record two_entries {
  entries =
      (2, record { value = 20; timestamp = 105 })
      ∷ (3, record { value = 30; timestamp = 106 })
      ∷ [];
  lru_list = 3 ∷ 2 ∷ [];
}

put-evicts_example :
    lookup ℕ_discrete 2 third_after_eviction.entries
    ≡ ite
        (ℕ_discrete 3 2)
        (some (record { value = 30; timestamp = 106 }))
        (ite (ℕ_discrete 1 2) none (live_entry ℕ_discrete 2 106 two_entries))
unfolding put lookup insert has_ttl cleanup_expired expired_keys is_expired drop_keys drop_key
    remove make_room add_entry erase evict_lru back pop_back
put-evicts_example =
    put-evicts ℕ_discrete 3 2 1 30 106 106 two_entries third_after_eviction two_entries-IsValid
      (ground arith) (ground arith) (ground arith) (ground arith)
