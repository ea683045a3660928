-- ===== src/Cache.antt =====
-- auto_workflow/cache.py: the result caches. The clock and the directory of files are arguments; a
-- file is named by the hash of its key, here by the key.
pub mod Bound
use auto_workflow.Base.{
  ℕ, zero, suc, ◌-◌, Bool, true, false, Option, none, some, List, [], ◌∷◌, ◌++◌, if◌then◌else◌, leb,
  ltb, Str, ◌==◌, length, Dict, lookup, insert, erase,
}

-- What a cache file holds: a time and a value, or bytes that `pickle.load` refuses.
abbrev pub Files {ℓ} : Type ℓ → Type ℓ
Files V = Dict (Option (ℕ × V))

module _ {ℓ} {V : Type ℓ} where
  -- `OrderedDict.move_to_end(key)` of an entry that is there: it stands last then.
  abbrev pub move_to_end : Str → ℕ × V → Dict (ℕ × V) → Dict (ℕ × V)
  move_to_end key item store = erase key store ++ (key, item) ∷ []

  -- `InMemoryResultCache.get`, at the time `now`.
  unfoldable pub get_memory : ℕ → Str → Option ℕ → Dict (ℕ × V) → Option V × Dict (ℕ × V)
  get_memory now key none store = (none, store)
  get_memory now key (some ttl) store = elim (lookup key store) [
    | none ↦ (none, store)
    | some item ↦
        if leb (now - item.0) ttl then (some item.1, move_to_end key item store) else (none, store)
  ]

  -- `while len(self._store) > max_entries: self._store.popitem(last=False)`
  unfoldable pub evict : ℕ → Dict (ℕ × V) → Dict (ℕ × V)
  evict bound [] = []
  evict bound (e ∷ store) =
      let rest = evict bound store in if ltb bound (length (e ∷ store)) then rest else e ∷ store

  -- `max_entries is not None and max_entries > 0`
  unfoldable pub enforce : Option ℕ → Dict (ℕ × V) → Dict (ℕ × V)
  unfolding evict
  enforce none store = store
  enforce (some zero) store = store
  enforce (some (suc n)) store = evict (suc n) store

  -- `InMemoryResultCache.set`, with the bound of the configuration.
  unfoldable pub set_memory : Option ℕ → ℕ → Str → V → Dict (ℕ × V) → Dict (ℕ × V)
  unfolding enforce
  set_memory bound now key v store = enforce bound (move_to_end key (now, v) store)

  -- `FileSystemResultCache.get`: the file, and else what the cache in memory says.
  unfoldable pub get_files : ℕ → Str → Option ℕ → Files V × Dict (ℕ × V) → Option V × Dict (ℕ × V)
  unfolding get_memory
  get_files now key ttl (files, store) =
      let below = get_memory now key ttl store in
      elim (lookup key files) [
        | none ↦ below
        | some none ↦ below
        | some (some item) ↦ (elim ttl [
          | none ↦ below
          | some limit ↦ if leb (now - item.0) limit then (some item.1, store) else below
        ])
      ]

  -- `FileSystemResultCache.set`, which reads the clock again for the file; `pickles` says whether
  -- `pickle.dump` takes the value. The file is opened, and emptied, before.
  unfoldable pub set_files :
      (V → Bool) → Option ℕ → ℕ → ℕ → Str → V → Files V × Dict (ℕ × V) → Files V × Dict (ℕ × V)
  unfolding set_memory
  set_files pickles bound now written key v (files, store) = (
    insert key (if pickles v then some (written, v) else none) files,
    set_memory bound now key v store,
  )
