-- ===== src/Consumer/Delivery.antt =====
-- What a consumer commits, what it hands on, and when its loop returns.
use workers_kafka.Prelude.{
  suc, ◌<◌, ◌≡◌, refl, subst, ap, ◌∙◌, List, [], ◌∷◌, ◌++◌, Bool, true, false, arith, length,
  length-append, In, first, later, In-nil, In-++_left, In-++_right, if◌then◌else◌,
}
use workers_kafka.Consumer.Channels.{StopsOk}
use workers_kafka.Consumer.{Message, Turn, Consumer, flush, keep_offset, should_flush}

abbrev pub Subset : List Message → List Message → Type 0
Subset a b = (m : Message) → In m a → In m b

Subset-++ : (a b c : List Message) → Subset a c → Subset b c → Subset (a ++ b) c
Subset-++ [] b c f g m i = g m i
Subset-++ (x ∷ a) b c f g _ first = f x first
Subset-++ (x ∷ a) b c f g m (later i) = Subset-++ a b c (λ n j. f n (later j)) g m i

pub committed-Subset :
    (a b c : List Message) (x : Bool) → Subset a c → Subset b c → Subset (if x then a ++ b else a) c
committed-Subset a b c true f g = Subset-++ a b c f g
committed-Subset a b c false f g = f

pub Subset-more : (a l : List Message) (m : Message) → Subset a l → Subset a (l ++ (m ∷ []))
Subset-more a l m f n i = In-++_left n l (m ∷ []) (f n i)

pub Subset-last : (l : List Message) (m : Message) → Subset (m ∷ []) (l ++ (m ∷ []))
Subset-last l m n i = In-++_right n l (m ∷ []) i

-- Only messages of `l` are committed or kept for a commit; the batcher counts the kept ones; each
-- watchdog but the last has been stopped.
pub record Books {S : Type 0} (l : List Message) (c : Consumer S) : Type 0 where
  pub committed : Subset c.committed l
  pub kept : Subset c.pending_commits l
  pub counted : c.batcher.pending ≡ length c.pending_commits
  pub channels : StopsOk c

module _ {S : Type 0} where
  pub flush-at :
      (t : Turn) (c : Consumer S) (l p : List Message)
      → c.pending_commits ≡ p
      → Books l c
      → Books l (flush t c)
        × ((flush t c).handled ≡ c.handled)
        × ((flush t c).dead ≡ c.dead)
        × ((flush t c).batcher.pending ≡ 0)
        × ((flush t c).batcher.batch ≡ c.batcher.batch)
  unfolding flush
  flush-at t c l [] h b = rw h (
    record {
      committed = b.committed;
      kept = λ n i. In-nil n l i;
      counted = b.counted ∙ ap length h;
      channels = record { made = b.channels.made; closed = b.channels.closed };
    },
    refl,
    refl,
    b.counted ∙ ap length h,
    refl,
  )
  flush-at t c l (m ∷ ms) h b = rw h (
    record {
      committed =
          committed-Subset c.committed (m ∷ ms) l t.commit_accepts b.committed
            (subst (λ x. Subset x l) h b.kept);
      kept = λ n i. In-nil n l i;
      counted = refl;
      channels = record { made = b.channels.made; closed = b.channels.closed };
    },
    refl,
    refl,
    refl,
    refl,
  )

  abbrev pub kept_message : Message → Consumer S → Consumer S
  kept_message m c = record c {
    pending_commits = c.pending_commits ++ (m ∷ []);
    batcher = record c.batcher { pending = suc c.batcher.pending };
  }

  kept_message-Books :
      (m : Message) (l : List Message) (c : Consumer S)
      → Books l c
      → Books (l ++ (m ∷ [])) (kept_message m c)
  kept_message-Books m l c b = record {
    committed = Subset-more c.committed l m b.committed;
    kept =
        Subset-++ c.pending_commits (m ∷ []) _ (Subset-more c.pending_commits l m b.kept)
          (Subset-last l m);
    counted = omega (arith, b.counted, length-append c.pending_commits (m ∷ []));
    channels = record { made = b.channels.made; closed = b.channels.closed };
  }

  -- The batch is never full between two passes.
  abbrev pub Small : Consumer S → Type 0
  Small c = c.batcher.pending < c.batcher.batch

  -- A pass that keeps the offset of the message `m`.
  pub record Took (l : List Message) (m : Message) (c c' : Consumer S) : Type 0 where
    pub books : Books (l ++ (m ∷ [])) c'
    pub handled : c'.handled ≡ c.handled
    pub dead : c'.dead ≡ c.dead
    pub small : Small c → Small c'

  flush_if-Took :
      (t : Turn) (l : List Message) (m : Message) (c : Consumer S) (b : Bool)
      → should_flush t.now (kept_message m c).batcher ≡ b
      → Books l c
      → Took l m c (if b then flush t (kept_message m c) else kept_message m c)
  unfolding should_flush
  flush_if-Took t l m c true h b =
      let (books, handled, dead, none_left, same) =
        flush-at t (kept_message m c) (l ++ (m ∷ [])) _ refl (kept_message-Books m l c b) in
      record {
        books = books;
        handled = handled;
        dead = dead;
        small = λ s. omega (arith, s, none_left, same);
      }
  flush_if-Took t l m c false h b = record {
    books = kept_message-Books m l c b;
    handled = refl;
    dead = refl;
    small = λ s. ground (arith, h);
  }

  pub keep_offset-Took :
      (t : Turn) (l : List Message) (m : Message) (c : Consumer S)
      → Books l c
      → Took l m c (keep_offset t m c)
  unfolding keep_offset
  keep_offset-Took t l m c b = flush_if-Took t l m c _ refl b

  pub with_handled-Books :
      (s : S) (l : List Message) (c : Consumer S) → Books l c → Books l (record c { handled = s })
  with_handled-Books s l c b = record {
    committed = b.committed;
    kept = b.kept;
    counted = b.counted;
    channels = record { made = b.channels.made; closed = b.channels.closed };
  }
