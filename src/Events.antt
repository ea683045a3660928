-- ===== src/Events.antt =====
-- auto_workflow/events.py: the event bus. A callback is its function; it is called with the payload,
-- changes the world, and may raise. (A callback that subscribes to the event that it is called for
-- is left out: the list would grow under the loop.)
use auto_workflow.Base.{
  ◌≡◌, ◌∙◌, ap, refl, inl, inr, Bool-cases, if◌then◌else◌, ◌==◌, eq_iff, lookup-insert, arith, none,
  some, List, [], ◌∷◌, ◌++◌, Str, Dict, lookup, insert,
}
use auto_workflow.Exceptions.{Result}

-- What a callback returns is not used.
abbrev pub Callback {ℓ} : Type ℓ → Type ℓ → Type ℓ
Callback P W = P → W → Result W × W

abbrev pub Subscribers {ℓ} : Type ℓ → Type ℓ → Type ℓ
Subscribers P W = Dict (List (Callback P W))

module _ {ℓ} {P : Type ℓ} {W : Type ℓ} where
  -- `_subscribers.get(event, [])`
  abbrev pub listeners : Str → Subscribers P W → List (Callback P W)
  listeners event bus = elim (lookup event bus) [ none ↦ [] | some cbs ↦ cbs ]

  -- `_subscribers.setdefault(event, []).append(callback)`
  unfoldable pub subscribe : Str → Callback P W → Subscribers P W → Subscribers P W
  subscribe event cb bus = insert event (listeners event bus ++ cb ∷ []) bus

  -- The loop of `emit`, which suppresses what a callback raises.
  unfoldable pub notify : List (Callback P W) → P → W → W
  notify [] payload w = w
  notify (cb ∷ cbs) payload w = notify cbs payload (cb payload w).1

  unfoldable pub emit : Str → P → Subscribers P W → W → W
  emit event payload bus w = notify (listeners event bus) payload w

  notify-append :
      (xs ys : List (Callback P W)) (payload : P) (w : W)
      → notify (xs ++ ys) payload w ≡ notify ys payload (notify xs payload w)
  unfolding notify
  notify-append [] ys payload w = refl
  notify-append (x ∷ xs) ys payload w = notify-append xs ys payload (x payload w).1

  listeners-subscribe :
      (event other : Str) (cb : Callback P W) (bus : Subscribers P W)
      → listeners other (subscribe event cb bus)
        ≡ (if other == event then listeners event bus ++ cb ∷ [] else listeners other bus)
  unfolding subscribe
  listeners-subscribe event other cb bus =
      let at_other = lookup-insert other event (listeners event bus ++ cb ∷ []) bus in
      elim (Bool-cases (other == event)) [
        | inl same ↦ ground (arith, rw same at at_other)
        | inr differs ↦ ground (arith, rw differs at at_other)
      ]

  emit_here :
      (event : Str) (cb : Callback P W) (payload : P) (bus : Subscribers P W) (w : W)
      → emit event payload (subscribe event cb bus) w ≡ (cb payload (emit event payload bus w)).1
  unfolding emit notify
  emit_here event cb payload bus w =
      ap (λ cbs. notify cbs payload w)
        (rw ((eq_iff event event).1 refl) at (listeners-subscribe event event cb bus))
      ∙ notify-append (listeners event bus) (cb ∷ []) payload w

  -- A callback is called behind those that were there, whatever they raise, and for its event only.
  pub emit-subscribe :
      (event other : Str) (cb : Callback P W) (payload : P) (bus : Subscribers P W) (w : W)
      → emit other payload (subscribe event cb bus) w ≡ (
          if other == event
          then (cb payload (emit other payload bus w)).1
          else emit other payload bus w)
  unfolding emit
  emit-subscribe event other cb payload bus w = elim (Bool-cases (other == event)) [
    | inl same ↦
        rw ((eq_iff other event).0 same, (eq_iff event event).1 refl)
          (emit_here event cb payload bus w)
    | inr differs ↦
        rw differs (
          ap (λ cbs. notify cbs payload w) (rw differs at (listeners-subscribe event other cb bus)))
  ]
