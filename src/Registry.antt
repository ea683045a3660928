-- ===== src/Registry.antt =====
-- auto_workflow/connectors/registry.py: registered factories and the cache of their clients. The
-- profile's configuration stands as the digest of its JSON text.
use auto_workflow.Base.{
  ◌≡◌, refl, Bool, false, ◌&&◌, Option, none, some, List, [], ◌∷◌, ◌++◌, if◌then◌else◌, Str, ◌==◌,
  eq_iff, Dict, lookup, insert, arith,
}
use auto_workflow.Exceptions.{config_error, Result, ok, raise}

-- An entry of `_CACHE`.
pub record Client {ℓ} (C : Type ℓ) : Type ℓ where
  pub name : Str
  pub profile : Str
  pub digest : Str
  pub connector : C

-- `_REGISTRY` and `_CACHE`.
pub record Registry {ℓ κ} (F : Type ℓ) (C : Type κ) : Type (ℓ ⊔ κ) where
  pub factories : Dict F
  pub clients : List (Client C)

module _ {ℓ} {C : Type ℓ} where
  abbrev pub has_key_of : Str → Str → Str → Client C → Bool
  has_key_of name profile digest e = e.name == name && (e.profile == profile && e.digest == digest)

  -- `_CACHE.get(cache_key)`
  unfoldable pub find_client : Str → Str → Str → List (Client C) → Option C
  find_client name profile digest [] = none
  find_client name profile digest (e ∷ es) =
      if has_key_of name profile digest e
      then some e.connector
      else find_client name profile digest es

  -- `_CACHE.pop(cache_key, None)`
  unfoldable pub drop_client : Str → Str → Str → List (Client C) → List (Client C)
  drop_client name profile digest [] = []
  drop_client name profile digest (e ∷ es) =
      if has_key_of name profile digest e then es else e ∷ drop_client name profile digest es

  find-snoc :
      (name profile digest : Str) (c : C) (es : List (Client C))
      → find_client name profile digest es ≡ none
      → find_client name profile digest
          (es ++ record { name = name; profile = profile; digest = digest; connector = c } ∷ [])
        ≡ some c
  unfolding find_client
  find-snoc name profile digest c [] h =
      ground (arith, eq_iff name name, eq_iff profile profile, eq_iff digest digest)
  find-snoc name profile digest c (e ∷ es) h = ground (arith, find-snoc name profile digest c es)

module _ {ℓ κ} {F : Type ℓ} {C : Type κ} where
  -- `register(name, factory)`
  unfoldable pub register_factory : Str → F → Registry F C → Registry F C
  register_factory name factory st = record st { factories = insert name factory st.factories }

  -- The factory of a name: registered, or registered now by the import of the module of that name,
  -- which `imported` gives if there is one.
  unfoldable pub resolve_factory : (Str → Option F) → Str → Registry F C → Option F × Registry F C
  unfolding register_factory
  resolve_factory imported name st = elim (lookup name st.factories) [
    | some f ↦ (some f, st)
    | none ↦ (elim (imported name) [
      | none ↦ (none, st)
      | some f ↦ (some f, register_factory name f st)
    ])
  ]

  -- The end of `get`: a new client, opened as far as that works, put into the cache. `create` is the
  -- factory's call; the cache has no entry of this key then.
  unfoldable pub open_client : Str → Str → Str → Result C → Registry F C → Result C × Registry F C
  open_client name profile digest (raise e) st = (raise e, st)
  open_client name profile digest (ok c) st =
      let made : Client C = record {
        name = name;
        profile = profile;
        digest = digest;
        connector = c;
      } in
      (ok c, record st { clients = st.clients ++ made ∷ [] })

  -- `get(name, profile)`, where `digest` is the configuration's.
  unfoldable pub get_client :
      (Str → Option F)
      → (F → Result C)
      → (C → Bool)
      → Str
      → Str
      → Str
      → Registry F C
      → Result C × Registry F C
  unfolding resolve_factory find_client drop_client open_client
  get_client imported create is_closed name profile digest st =
      let (factory, st') = resolve_factory imported name st in
      elim factory [
        | none ↦ (raise (config_error name), st')
        | some f ↦ (elim (find_client name profile digest st'.clients) [
          | none ↦ open_client name profile digest (create f) st'
          | some c ↦
              if is_closed c
              then open_client name profile digest (create f)
                  (record st' { clients = drop_client name profile digest st'.clients })
              else (ok c, st')
        ])
      ]

  resolved :
      (imported : Str → Option F) (name : Str) (st : Registry F C) (f : F)
      → lookup name st.factories ≡ some f
      → resolve_factory imported name st ≡ (some f, st)
  unfolding resolve_factory
  resolved imported name st f r = ground (arith, r)

  -- A registered name with an open client in the cache gets this client, nothing is created, and the
  -- registry stays as it is.
  pub get_client_cached :
      (imported : Str → Option F) (create : F → Result C) (is_closed : C → Bool)
      (name profile digest : Str) (st : Registry F C) (f : F) (c : C)
      → lookup name st.factories ≡ some f
      → find_client name profile digest st.clients ≡ some c
      → is_closed c ≡ false
      → get_client imported create is_closed name profile digest st ≡ (ok c, st)
  unfolding get_client
  get_client_cached imported create is_closed name profile digest st f c r found open_still =
      ground (arith, resolved imported name st f r, found, open_still)

  with_client : Str → Str → Str → C → Registry F C → Registry F C
  with_client name profile digest c st = record st {
    clients =
        st.clients
        ++ record { name = name; profile = profile; digest = digest; connector = c } ∷ [];
  }

  created :
      (imported : Str → Option F) (create : F → Result C) (is_closed : C → Bool)
      (name profile digest : Str) (st : Registry F C) (f : F) (c : C)
      → lookup name st.factories ≡ some f
      → find_client name profile digest st.clients ≡ none
      → create f ≡ ok c
      → get_client imported create is_closed name profile digest st
        ≡ (ok c, with_client name profile digest c st)
  unfolding get_client open_client with_client
  created imported create is_closed name profile digest st f c r absent made =
      ground (arith, resolved imported name st f r, absent, made)

  -- With a registered factory, no client of the key in the cache and a factory call that succeeds,
  -- get returns the new client, and a further get of this key returns the same one while it is
  -- open, whatever the factory would make then, and changes nothing.
  pub get_client_shared :
      (imported : Str → Option F) (create create' : F → Result C) (is_closed : C → Bool)
      (name profile digest : Str) (st : Registry F C) (f : F) (c : C)
      → lookup name st.factories ≡ some f
      → find_client name profile digest st.clients ≡ none
      → create f ≡ ok c
      → is_closed c ≡ false
      → ((get_client imported create is_closed name profile digest st).0 ≡ ok c)
        × (get_client imported create' is_closed name profile digest
              (get_client imported create is_closed name profile digest st).1
            ≡ (ok c, (get_client imported create is_closed name profile digest st).1))
  unfolding with_client
  get_client_shared imported create create' is_closed name profile digest st f c r absent made
        open_still =
      rw (created imported create is_closed name profile digest st f c r absent made) (
        (
          refl,
          get_client_cached imported create' is_closed name profile digest
              (with_client name profile digest c st) f c r
              (find-snoc name profile digest c st.clients absent) open_still,
        ))
