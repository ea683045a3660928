-- ===== src/Postgres/Transaction.antt =====
-- auto_workflow/connectors/postgres.py, `transaction`: the statements and the stack of connections.
use auto_workflow.Base.{
  ◌≡◌, refl, ap, ◌∙◌, ℕ, List, [], ◌∷◌, ◌++◌, Bool, true, false, Str, codes, arith,
}
use auto_workflow.Connectors.{
  Error, Answer, fails, gives, Call, map_error, inc, metric_name, op_span,
}
use auto_workflow.Postgres.{
  Driver, Client, note, transaction, in_transaction, outermost, finish, pooled, leaving, popped,
  ensure_open, send,
}
use auto_workflow.Postgres.Text.{begin_sql}
use auto_workflow.Postgres.Errors.{raise_mapped}

-- What ends a transaction whose body ended so.
abbrev pub closing {ℓ} : {A : Type ℓ} → Answer A → Str
closing (fails e) = codes "ROLLBACK"
closing (gives a) = codes "COMMIT"

abbrev pub is_failure {ℓ} : {A : Type ℓ} → Answer A → Bool
is_failure (fails e) = true
is_failure (gives a) = false

module _ {W V P : Type 0} (driver : Driver W V P) where
  open driver use {enter, run}

  -- The state in which a transaction's body starts, after its BEGIN.
  abbrev pub counted : Client W → Client W
  counted c =
      note driver (inc (metric_name c.name (codes "postgres.transaction") (codes "count")) ∷ []) c

  abbrev pub begun : ℕ → Str → W → Client W → Client W
  begun conn begin w c = record (counted c) {
    tx_stack = conn ∷ c.tx_stack;
    sent = c.sent ++ (conn, begin) ∷ [];
    world = w;
  }

  opened : (c : Client W) → c.pool ≡ true → ensure_open driver c ≡ (gives true, c)
  unfolding ensure_open
  opened c h = ground (arith, h)

  module _ {A : Type 0} where
    -- A transaction of a client with a pool, without its span.
    abbrev inner : Str → Call (Client W) A → Client W → Client W
    inner begin body c = (in_transaction driver begin body (counted c)).1

    transaction-inner :
        (isolation : Str) (readonly deferrable : Bool) (body : Call (Client W) A) (c : Client W)
        → c.pool ≡ true
        → ((transaction driver isolation readonly deferrable body c).1.sent
            ≡ (inner (begin_sql isolation readonly deferrable) body c).sent)
          × ((transaction driver isolation readonly deferrable body c).1.tx_stack
              ≡ (inner (begin_sql isolation readonly deferrable) body c).tx_stack)
          × ((transaction driver isolation readonly deferrable body c).0
              ≡ map_error raise_mapped
                  (in_transaction driver
                    (begin_sql isolation readonly deferrable)
                    body
                    (counted c)).0)
    unfolding transaction op_span
    transaction-inner isolation readonly deferrable body c h =
        rw (opened (counted c) h) (refl, refl, refl)

    nested :
        (begin : Str) (body : Call (Client W) A) (c : Client W) (conn : ℕ) (stk : List ℕ)
        → c.tx_stack ≡ conn ∷ stk
        → in_transaction driver begin body c ≡ body c
    unfolding in_transaction
    nested begin body c conn stk k = ground (arith, k)

    first :
        (begin : Str) (body : Call (Client W) A) (c : Client W)
        → c.tx_stack ≡ []
        → in_transaction driver begin body c ≡ pooled driver (outermost driver begin body) c
    unfolding in_transaction
    first begin body c k = ground (arith, k)

    sent-leaving :
        (conn : ℕ) (o : Answer A × Client W)
        → ((leaving driver conn o).1.sent ≡ o.1.sent)
          × ((leaving driver conn o).1.tx_stack ≡ o.1.tx_stack)
    unfolding leaving
    sent-leaving conn (r, c) = (refl, refl)

    sent-pooled :
        (f : ℕ → Call (Client W) A) (c : Client W) (conn : ℕ) (w : W)
        → enter c.world ≡ (gives conn, w)
        → ((pooled driver f c).1.sent ≡ (f conn (record c { world = w })).1.sent)
          × ((pooled driver f c).1.tx_stack ≡ (f conn (record c { world = w })).1.tx_stack)
    unfolding pooled
    sent-pooled f c conn w e = rw (e) (sent-leaving conn (f conn (record c { world = w })))

    outermost_lem :
        (begin : Str) (body : Call (Client W) A) (conn : ℕ) (c : Client W) (b : Bool) (w' : W)
        → run conn begin c.world ≡ (gives b, w')
        → outermost driver begin body conn c
          ≡ finish driver conn (
              body (record c {
                tx_stack = conn ∷ c.tx_stack;
                sent = c.sent ++ (conn, begin) ∷ [];
                world = w';
              }))
    unfolding outermost send
    outermost_lem begin body conn c b w' r = rw (r) refl

    refused_lem :
        (begin : Str) (body : Call (Client W) A) (conn : ℕ) (c : Client W) (e : Error) (w' : W)
        → run conn begin c.world ≡ (fails e, w')
        → outermost driver begin body conn c ≡ (
          fails e,
          record c {
            tx_stack = conn ∷ c.tx_stack;
            sent = c.sent ++ (conn, begin) ∷ [];
            world = w';
          },
        )
    unfolding outermost send
    refused_lem begin body conn c e w' r = rw (r) refl

    sent-finish :
        (conn : ℕ) (r : Answer A × Client W)
        → ((finish driver conn r).1.sent ≡ r.1.sent ++ (conn, closing r.0) ∷ [])
          × ((finish driver conn r).1.tx_stack ≡ popped driver r.1.tx_stack)
    unfolding finish send
    sent-finish conn (fails e, c) = (refl, refl)
    sent-finish conn (gives a, c) = (refl, refl)

  module _ {A : Type 0} (isolation : Str) (readonly deferrable : Bool) (body : Call (Client W) A)
      (c : Client W) where
    abbrev begin : Str
    begin = begin_sql isolation readonly deferrable

    -- A transaction within another one sends nothing of its own: it is its body, with the mapping of
    -- errors.
    pub transaction_nested :
        (conn : ℕ) (stk : List ℕ)
        → c.pool ≡ true
        → c.tx_stack ≡ conn ∷ stk
        → ((transaction driver isolation readonly deferrable body c).0
            ≡ map_error raise_mapped (body (counted c)).0)
          × ((transaction driver isolation readonly deferrable body c).1.sent
              ≡ (body (counted c)).1.sent)
          × ((transaction driver isolation readonly deferrable body c).1.tx_stack
              ≡ (body (counted c)).1.tx_stack)
    transaction_nested conn stk h k =
        let (s, t, r) = transaction-inner isolation readonly deferrable body c h in
        let e = nested begin body (counted c) conn stk k in
        (
          r ∙ ap (λ o. map_error raise_mapped o.0) e,
          s ∙ ap (λ o. o.1.sent) e,
          t ∙ ap (λ o. o.1.tx_stack) e,
        )

    -- If the client has a pool, its thread pins no connection, a connection is acquired and BEGIN
    -- succeeds, then the last statement that transaction sends, behind BEGIN and those of the
    -- transactions in its body, is COMMIT where the body returns and ROLLBACK where it raises, and
    -- the stack is what the body leaves without its top, whatever the driver answers then.
    pub transaction_outermost :
        (conn : ℕ) (w w' : W) (b : Bool)
        → c.pool ≡ true
        → c.tx_stack ≡ []
        → enter c.world ≡ (gives conn, w)
        → run conn begin w ≡ (gives b, w')
        → ((transaction driver isolation readonly deferrable body c).1.sent
            ≡ (body (begun conn begin w' c)).1.sent
              ++ (conn, closing (body (begun conn begin w' c)).0) ∷ [])
          × ((transaction driver isolation readonly deferrable body c).1.tx_stack
              ≡ popped driver (body (begun conn begin w' c)).1.tx_stack)
    transaction_outermost conn w w' b h k e r =
        let (s, t, o) = transaction-inner isolation readonly deferrable body c h in
        let q = first begin body (counted c) k in
        let (s', t') = sent-pooled (outermost driver begin body) (counted c) conn w e in
        let f = outermost_lem begin body conn (record (counted c) { world = w }) b w' r in
        let (s'', t'') = sent-finish conn (body (begun conn begin w' c)) in
        (
          s ∙ ap (λ o. o.1.sent) q ∙ s' ∙ ap (λ o. o.1.sent) f ∙ s'',
          t ∙ ap (λ o. o.1.tx_stack) q ∙ t' ∙ ap (λ o. o.1.tx_stack) f ∙ t'',
        )

    -- If the client has a pool, its thread pins no connection and a connection is acquired but
    -- BEGIN fails, a transaction sends only BEGIN, and its connection stays pinned in the thread.
    pub transaction_leaks :
        (conn : ℕ) (w w' : W) (e : Error)
        → c.pool ≡ true
        → c.tx_stack ≡ []
        → enter c.world ≡ (gives conn, w)
        → run conn begin w ≡ (fails e, w')
        → ((transaction driver isolation readonly deferrable body c).1.sent
            ≡ c.sent ++ (conn, begin) ∷ [])
          × ((transaction driver isolation readonly deferrable body c).1.tx_stack ≡ conn ∷ [])
    transaction_leaks conn w w' e h k en r =
        let (s, t, o) = transaction-inner isolation readonly deferrable body c h in
        let q = first begin body (counted c) k in
        let (s', t') = sent-pooled (outermost driver begin body) (counted c) conn w en in
        let f = refused_lem begin body conn (record (counted c) { world = w }) e w' r in
        (
          s ∙ ap (λ o. o.1.sent) q ∙ s' ∙ ap (λ o. o.1.sent) f,
          t ∙ ap (λ o. o.1.tx_stack) q ∙ t' ∙ ap (λ o. o.1.tx_stack) f ∙ ap (λ stk. conn ∷ stk) k,
        )
