-- ===== src/Consumer/Channels.antt =====
-- The channels that stop the watchdogs of one consuming goroutine.
use workers_kafka.Prelude.{
  ℕ, zero, suc, ◌≤◌, ◌≡◌, refl, ap, ◌∙◌, List, [], ◌∷◌, Option, none, some, true, false, arith,
}
use workers_kafka.Consumer.{
  Consumer, ConsumerError, panicked, is_closed, close_channel, reconnect, leave,
}

-- The channels with a number below `n`, the last one first.
abbrev pub earlier : ℕ → List ℕ
earlier zero = []
earlier (suc n) = n ∷ earlier n

open_channel : (m n : ℕ) → n ≤ m → is_closed m (earlier n) ≡ false
unfolding is_closed
open_channel m zero h = refl
open_channel m (suc n) h = ground (arith, h, open_channel m n (omega (arith, h)))

first_closed : (n : ℕ) → is_closed 0 (earlier (suc n)) ≡ true
unfolding is_closed
first_closed zero = refl
first_closed (suc n) = ground (arith, first_closed n)

-- Every reconnection has closed the channel of the watchdog before it, and nothing else has closed
-- one.
pub record StopsOk {S : Type 0} (c : Consumer S) : Type 0 where
  pub made : c.stall_stop ≡ c.reconnects
  pub closed : c.closed_stops ≡ earlier c.stall_stop

-- What a goroutine returns whose loop returned `o` after so many reconnections.
abbrev pub returned : ℕ → Option ConsumerError → Option ConsumerError
returned n none = none
returned zero (some e) = some e
returned (suc n) (some e) = some panicked

module _ {S : Type 0} where
  abbrev pub reconnected : Consumer S → Consumer S
  reconnected c = record c {
    reconnects = suc c.reconnects;
    closed_stops = c.stall_stop ∷ c.closed_stops;
    stall_stop = suc c.stall_stop;
  }

  pub reconnect-at : (c : Consumer S) → StopsOk c → reconnect c ≡ (none, reconnected c)
  unfolding reconnect close_channel
  reconnect-at c s =
      let still : is_closed c.stall_stop c.closed_stops ≡ false =
        ap (is_closed c.stall_stop) s.closed
        ∙ open_channel c.stall_stop c.stall_stop (omega arith) in
      rw (reconnect, close_channel, still) refl

  pub reconnected-StopsOk : (c : Consumer S) → StopsOk c → StopsOk (reconnected c)
  reconnected-StopsOk c s = record {
    made = ap suc s.made;
    closed = ap (λ (l : List ℕ). c.stall_stop ∷ l) s.closed;
  }

  leave-at :
      (o : Option ConsumerError) (c : Consumer S) (n : ℕ)
      → c.closed_stops ≡ earlier n
      → (leave (o, c)).0 ≡ returned n o
  unfolding leave close_channel
  leave-at none c n h = refl
  leave-at (some e) c zero h = rw h (unfold is_closed in refl)
  leave-at (some e) c (suc n) h = rw (h, leave, close_channel, first_closed n) refl

  pub leave-returned :
      (o : Option ConsumerError × Consumer S)
      → StopsOk o.1
      → (leave o).0 ≡ returned o.1.reconnects o.0
  leave-returned (o, c) s = leave-at o c c.stall_stop s.closed ∙ ap (λ (n : ℕ). returned n o) s.made
