-- ===== src/Cache/Bound.antt =====
-- The bound and the time to live of the cache in memory.
use auto_workflow.Base.{
  ℕ, zero, suc, ◌-◌, ◌≤◌, ◌≡◌, Bool, true, ◌||◌, Option, none, some, [], ◌∷◌, ◌++◌, if◌then◌else◌,
  leb, Str, eq_iff, length, nodup, lookup-insert, lookup-erase, Dict, lookup, erase, keys, arith,
}
use auto_workflow.Cache.{move_to_end, get_memory, evict, enforce, set_memory, get_files, set_files}

module _ {ℓ} {V : Type ℓ} where
  length-evict : (n : ℕ) (store : Dict (ℕ × V)) → length (evict n store) ≤ n
  unfolding evict
  length-evict n [] = omega arith
  length-evict n (e ∷ store) = ground (arith, length-evict n store)

  -- After a set under a bound above zero the cache in memory has at most that many entries.
  pub length-set_memory :
      (n now : ℕ) (key : Str) (v : V) (store : Dict (ℕ × V))
      → length (set_memory (some (suc n)) now key v store) ≤ suc n
  unfolding set_memory enforce
  length-set_memory n now key v store = length-evict (suc n) (move_to_end key (now, v) store)

  lookup-snoc :
      (k : Str) (item : ℕ × V) (store : Dict (ℕ × V))
      → lookup k store ≡ none
      → lookup k (store ++ (k, item) ∷ []) ≡ some item
  unfolding lookup
  lookup-snoc k item [] h = ground (arith, eq_iff k k)
  lookup-snoc k item ((j, e) ∷ store) h = ground (arith, lookup-snoc k item store)

  -- Eviction takes entries from the front.
  lookup-evict :
      (n : ℕ) (k : Str) (item : ℕ × V) (store : Dict (ℕ × V))
      → lookup k store ≡ none
      → lookup k (evict (suc n) (store ++ (k, item) ∷ [])) ≡ some item
  unfolding evict lookup
  lookup-evict n k item [] h = ground (arith, eq_iff k k)
  lookup-evict n k item ((j, e) ∷ store) h =
      ground (arith, lookup-evict n k item store, lookup-snoc k item store)

  lookup-enforce :
      (bound : Option ℕ) (k : Str) (item : ℕ × V) (store : Dict (ℕ × V))
      → lookup k store ≡ none
      → lookup k (enforce bound (store ++ (k, item) ∷ [])) ≡ some item
  unfolding enforce
  lookup-enforce none k item store h = lookup-snoc k item store h
  lookup-enforce (some zero) k item store h = lookup-snoc k item store h
  lookup-enforce (some (suc n)) k item store h = lookup-evict n k item store h

  -- In a cache in memory without duplicate keys, whatever the bound, a value that was set is found
  -- while its time to live has not passed and not afterwards: a set never evicts the entry that it
  -- makes.
  pub get_memory-set_memory :
      (bound : Option ℕ) (now later ttl : ℕ) (key : Str) (v : V) (store : Dict (ℕ × V))
      → nodup (keys store) ≡ true
      → (get_memory later key (some ttl) (set_memory bound now key v store)).0
        ≡ (if leb (later - now) ttl then some v else none)
  unfolding get_memory set_memory
  get_memory-set_memory bound now later ttl key v store d = ground (
    arith,
    lookup-enforce bound key (now, v) (erase key store)
        (ground (arith, lookup-erase key key store d, eq_iff key key)),
  )

  -- In a cache with files and without duplicate keys a picklable value that was set is found while
  -- its time to live has not passed since its file or its entry in memory was made.
  pub get_files-set_files :
      (pickles : V → Bool) (bound : Option ℕ) (now written later ttl : ℕ) (key : Str) (v : V)
      (files : Dict (Option (ℕ × V))) (store : Dict (ℕ × V))
      → nodup (keys store) ≡ true
      → pickles v ≡ true
      → (get_files later key
          (some ttl)
          (set_files pickles bound now written key v (files, store))).0
        ≡ (if leb (later - written) ttl || leb (later - now) ttl then some v else none)
  unfolding get_files set_files
  get_files-set_files pickles bound now written later ttl key v files store d p = ground (
    arith,
    lookup-insert key key (some (written, v)) files,
    eq_iff key key,
    get_memory-set_memory bound now later ttl key v store d,
  )
