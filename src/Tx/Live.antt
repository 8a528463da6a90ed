-- ===== src/Tx/Live.antt =====
-- Transactions that meet no database fault, and what the others come to.
use workers_kafka.Prelude.{◌≡◌, refl, sym, subst, ap, ◌∙◌, ◌⊎◌, inl, inr, true, none}
use workers_kafka.Errors.{Error, Result, ok, err, database}
use workers_kafka.Exec.{continue, ◌>>=◌}
use workers_kafka.Tx.{World, Tx, begin_tx, commit_tx, settle, with_tx}
use workers_kafka.Tx.Steady.{calm, SameAt, IsSteady, with_tx-IsSteady}

-- A world inside a transaction that meets no fault.
abbrev pub live : {G : Type 0} → World G → World G
live w = record w { faults = none; journaled = true }

-- What `with_tx` makes of the outcome of its block: an error undoes the writes.
abbrev pub settled :
    {G : Type 0} → World G → Result (Unit {0}) × World G → Result (Unit {0}) × World G
settled w (ok tt, w') = (ok tt, w')
settled w (err e, w') = (err e, record w' { db = w.db })

module _ {G : Type 0} where
  settled-commit :
      (w : World G) (r : Result (Unit {0})) (w' : World G)
      → settle w (continue (λ _. commit_tx) r (calm w')) ≡ settled w (r, calm w')
  unfolding settle commit_tx
  settled-commit w (ok tt) w' = refl
  settled-commit w (err e) w' = refl

  settled-database :
      (w : World G) (r : Result (Unit {0})) (w' : World G)
      → r ≡ err database
      → settle w (continue (λ _. commit_tx) r w') ≡ settled w (r, w')
  unfolding settle
  settled-database w (ok tt) w' e = cc
  settled-database w (err x) w' e = refl

  outcome-calm :
      (fn : Tx G (Unit {0})) (w : World G)
      → SameAt fn (live w)
      → settle (live w) ((fn >>= λ _. commit_tx) (live w)) ≡ settled (live w) (fn (live w))
  unfolding ◌>>=◌
  outcome-calm fn w (inl e) = settled-database (live w) (fn (live w)).0 (fn (live w)).1 e
  outcome-calm fn w (inr e) =
      subst
        (λ (o : Result (Unit {0}) × World G).
          settle (live w) (continue (λ _. commit_tx) o.0 o.1) ≡ settled (live w) o)
        (sym e) (settled-commit (live w) (fn (live w)).0 (fn (live w)).1)

  -- Without faults a transaction is its block, settled.
  pub with_tx-live :
      (fn : Tx G (Unit {0})) (w : World G)
      → IsSteady fn
      → with_tx fn (live w) ≡ settled (live w) (fn (live w))
  unfolding with_tx
  with_tx-live fn w h = outcome-calm fn w (h.at (live w))

module _ {G : Type 0} where
  -- A transaction has a journal, whatever the world outside says.
  pub with_tx-journaled :
      (fn : Tx G (Unit {0})) (w : World G) → with_tx fn (calm w) ≡ with_tx fn (live w)
  unfolding with_tx begin_tx
  with_tx-journaled fn w = refl

  settle-err :
      (w : World G) (r : Result (Unit {0})) (w' : World G) {x : Error}
      → (settle w (r, w')).0 ≡ err x
      → (settle w (r, w')).1.db ≡ w.db
  unfolding settle
  settle-err w (ok tt) w' h = cc
  settle-err w (err e) w' h = refl

  -- A transaction that returns an error leaves the tables as they were.
  pub with_tx_atomic :
      (fn : Tx G (Unit {0})) (w : World G) {x : Error}
      → (with_tx fn w).0 ≡ err x
      → (with_tx fn w).1.db ≡ w.db
  unfolding with_tx
  with_tx_atomic fn w h = settle-err w _ _ h

module _ {G : Type 0} where
  fault-cases :
      (fn : Tx G (Unit {0})) (w : World G)
      → IsSteady fn
      → SameAt (with_tx fn) w
      → (((with_tx fn w).0 ≡ err database) × ((with_tx fn w).1.db ≡ w.db))
        ⊎ (((with_tx fn w).0 ≡ (settled (live w) (fn (live w))).0)
            × ((with_tx fn w).1.db ≡ (settled (live w) (fn (live w))).1.db)
            × ((with_tx fn w).1.gateway ≡ (settled (live w) (fn (live w))).1.gateway))
  fault-cases fn w h (inl e) = inl (e, with_tx_atomic fn w e)
  fault-cases fn w h (inr e) =
      let same = sym e ∙ with_tx-journaled fn w ∙ with_tx-live fn w h in
      inr (ap (λ o. o.0) same, ap (λ o. o.1.db) same, ap (λ o. o.1.gateway) same)

  -- A transaction fails on the database and changes no table, or does what its block does without
  -- faults, settled.
  pub with_tx-outcome :
      (fn : Tx G (Unit {0})) (w : World G)
      → IsSteady fn
      → (((with_tx fn w).0 ≡ err database) × ((with_tx fn w).1.db ≡ w.db))
        ⊎ (((with_tx fn w).0 ≡ (settled (live w) (fn (live w))).0)
            × ((with_tx fn w).1.db ≡ (settled (live w) (fn (live w))).1.db)
            × ((with_tx fn w).1.gateway ≡ (settled (live w) (fn (live w))).1.gateway))
  with_tx-outcome fn w h = fault-cases fn w h ((with_tx-IsSteady fn h).at w)
