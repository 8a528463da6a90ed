-- ===== src/Environment/Connection.antt =====
-- `Connect` of internal/infrastructure/persistence/postgres/postgres.go, over what pgxpool answers to
-- each attempt.
use workers_kafka.Prelude.{
  ℕ, zero, suc, ◌+◌, ◌-◌, subst, ◌≤◌, ◌<◌, ◌≡◌, refl, Bool, true, false, if◌then◌else◌, arith,
}

abbrev pub connect_retries : ℕ
connect_retries = 10

-- What meets an attempt: whether a pool is made and answers a ping, and whether the context is done
-- during the wait after it.
pub record Attempt : Type 0 where
  pub opened : Bool
  pub pinged : Bool
  pub cancelled : Bool

pub data Connected : Type 0 where
  connected interrupted unreachable : Connected

-- The numbers of pools that were made and closed.
pub record Pools : Type 0 where
  pub made : ℕ
  pub closed : ℕ

-- `newPool` and the ping: a pool that does not answer is closed.
unfoldable pub try_pool : Attempt → Pools → Bool × Pools
try_pool a p =
    if a.opened
    then (if a.pinged
        then (true, record p { made = suc p.made })
        else (false, record { made = suc p.made; closed = suc p.closed }))
    else (false, p)

abbrev pub after_try : Attempt → (Pools → Connected × Pools) → Bool × Pools → Connected × Pools
after_try a again (true, p) = (connected, p)
after_try a again (false, p) = if a.cancelled then (interrupted, p) else again p

-- The attempts that are left, from number `i` on.
unfoldable pub connect_from : ℕ → ℕ → (ℕ → Attempt) → Pools → Connected × Pools
unfolding try_pool
connect_from zero i answers p = (unreachable, p)
connect_from (suc k) i answers p =
    after_try (answers i) (connect_from k (suc i) answers) (try_pool (answers i) p)

-- `Connect`
unfoldable pub connect : (ℕ → Attempt) → Connected × Pools
unfolding connect_from
connect answers = connect_from connect_retries 1 answers (record { made = 0; closed = 0 })

-- The pools that are open, with the one that the caller gets.
abbrev pub held : Connected → ℕ
held connected = 1
held _ = 0

-- At most `n` pools more than before, all closed but the one that the caller gets.
pub record Tidy (n : ℕ) (p : Pools) (o : Connected × Pools) : Type 0 where
  pub closed : o.1.made ≡ o.1.closed + held o.0
  pub few : o.1.made ≤ p.made + n

if-Tidy :
    (n : ℕ) (p : Pools) (b : Bool) {o o' : Connected × Pools}
    → Tidy n p o
    → Tidy n p o'
    → Tidy n p (if b then o else o')
if-Tidy n p true h k = h
if-Tidy n p false h k = k

more-Tidy :
    (n : ℕ) (p p' : Pools) (o : Connected × Pools)
    → p'.made ≤ suc p.made
    → Tidy n p' o
    → Tidy (suc n) p o
more-Tidy n p p' o h k = record { closed = k.closed; few = omega (arith, h, k.few) }

-- An attempt that found no pool leaves none open.
record Tried (p : Pools) (o : Bool × Pools) : Type 0 where
  pub balance : o.1.made ≡ o.1.closed + (if o.0 then 1 else 0)
  pub one : o.1.made ≤ suc p.made

try_pool-Tried :
    (a : Attempt) (b c : Bool) (p : Pools)
    → a.opened ≡ b
    → a.pinged ≡ c
    → p.made ≡ p.closed
    → Tried p (try_pool a p)
unfolding try_pool
try_pool-Tried a true true p b c h =
    rw (b, c) (record { balance = omega (arith, h); one = omega arith })
try_pool-Tried a true false p b c h =
    rw (b, c) (record { balance = omega (arith, h); one = omega arith })
try_pool-Tried a false c p b d h = rw b (record { balance = omega (arith, h); one = omega arith })

after_try-Tidy :
    (n : ℕ) (a : Attempt) (p : Pools) (again : Pools → Connected × Pools) (o : Bool × Pools)
    → Tried p o
    → ((p' : Pools) → p'.made ≡ p'.closed → Tidy n p' (again p'))
    → Tidy (suc n) p (after_try a again o)
after_try-Tidy n a p again (true, p') t later = record {
  closed = t.balance;
  few = omega (arith, t.one);
}
after_try-Tidy n a p again (false, p') t later =
    let balance : p'.made ≡ p'.closed = omega (arith, t.balance) in
    if-Tidy (suc n) p a.cancelled (record { closed = t.balance; few = omega (arith, t.one) })
      (more-Tidy n p p' (again p') t.one (later p' balance))

connect_from-Tidy :
    (k i : ℕ) (answers : ℕ → Attempt) (p : Pools)
    → p.made ≡ p.closed
    → Tidy k p (connect_from k i answers p)
unfolding connect_from
connect_from-Tidy zero i answers p h = record { closed = omega (arith, h); few = omega arith }
connect_from-Tidy (suc k) i answers p h =
    after_try-Tidy k (answers i) p (connect_from k (suc i) answers) (try_pool (answers i) p)
      (try_pool-Tried (answers i) _ _ p refl refl h)
      (λ p' b. connect_from-Tidy k (suc i) answers p' b)

-- The attempt number `i` finds a database that answers, and no wait before it is interrupted.
pub record Answers (answers : ℕ → Attempt) (i : ℕ) : Type 0 where
  pub opened : (answers i).opened ≡ true
  pub pinged : (answers i).pinged ≡ true
  pub waited : (j : ℕ) → j < i → (answers j).cancelled ≡ false

after_try-connected :
    (a : Attempt) (again : Pools → Connected × Pools) (o : Bool × Pools)
    → a.cancelled ≡ false
    → ((p : Pools) → (again p).0 ≡ connected)
    → (after_try a again o).0 ≡ connected
after_try-connected a again (true, p) h later = refl
after_try-connected a again (false, p) h later = rw h (later p)

connect_from-connected :
    (k i d j : ℕ) (answers : ℕ → Attempt) (p : Pools)
    → Answers answers j
    → j ≡ i + d
    → d < k
    → (connect_from k i answers p).0 ≡ connected
unfolding connect_from try_pool
connect_from-connected zero i d j answers p h e less =
    let none_left : ⊥ = omega (arith, less) in elim none_left [ ]
connect_from-connected (suc k) i zero j answers p h e less =
    let same : j ≡ i = omega (arith, e) in
    let opened : (answers i).opened ≡ true =
      subst (λ (x : ℕ). (answers x).opened ≡ true) same h.opened in
    let pinged : (answers i).pinged ≡ true =
      subst (λ (x : ℕ). (answers x).pinged ≡ true) same h.pinged in
    rw (opened, pinged) refl
connect_from-connected (suc k) i (suc d) j answers p h e less =
    after_try-connected (answers i) (connect_from k (suc i) answers) (try_pool (answers i) p)
      (h.waited i (omega (arith, e)))
      (λ p'.
        connect_from-connected k (suc i) d j answers p' h (omega (arith, e)) (omega (arith, less)))

-- Whatever the attempts meet, at most ten pools are made, and all are closed but the one that is
-- returned.
pub connect-Tidy :
    (answers : ℕ → Attempt)
    → Tidy connect_retries (record { made = 0; closed = 0 }) (connect answers)
unfolding connect
connect-Tidy answers = connect_from-Tidy connect_retries 1 answers _ refl

-- If one of the first ten attempts finds a database that answers, and no wait before it is
-- interrupted, a pool is returned; at most ten pools were made, and the others are closed.
pub connect-connected :
    (answers : ℕ → Attempt) (i : ℕ)
    → Answers answers i
    → 1 ≤ i
    → i ≤ connect_retries
    → ((connect answers).0 ≡ connected)
      × Tidy connect_retries (record { made = 0; closed = 0 }) (connect answers)
unfolding connect
connect-connected answers i h one most = (
  connect_from-connected connect_retries 1 (i - 1) i answers _ h (omega (arith, one))
      (omega (arith, one, most)),
  connect_from-Tidy connect_retries 1 answers _ refl,
)
