-- ===== src/Multicast/Client/Delivery.antt =====
-- What the peer of a client gets, over every interleaving of Line.
use fs_lib.Prelude.{
  ℕ, suc, ◌≤◌, ◌<◌, List, [], ◌∷◌, ◌++◌, ◌≡◌, sym, ap, ◌∙◌, subst, true, false, none, some, arith,
  Bytes, length, length-append, append_assoc, append-nil,
}
use fs_lib.Multicast.Client.{Client, send_queue_depth, shutdown}
use fs_lib.Multicast.Client.Line.{
  Line, held, Step, checks, queues, gives_up, drops, takes, writes, write_fails, shuts, stops,
  Reach, here, next, new_line,
}

abbrev pub Prefix : List Bytes → List Bytes → Type 0
Prefix xs ys = (rest : List Bytes) × (ys ≡ xs ++ rest)

pub record InOrder {H : Type 0} (s : Line H) : Type 0 where
  pub flowing : s.running ≡ true → s.sent ≡ s.client.wire ++ (held s.hand ++ s.client.send_q)
  pub written : Prefix s.client.wire s.sent
  pub alive : (b : Bytes) → s.hand ≡ some b → s.running ≡ true
  pub bounded : length s.client.send_q ≤ send_queue_depth
  pub down_closed : s.client.done ≡ true → s.client.conn_open ≡ false

module _ {H : Type 0} (close : H → H) where
  queues-InOrder :
      (s : Line H) (b : Bytes) (n : ℕ)
      → length s.client.send_q < send_queue_depth
      → InOrder s
      → InOrder (record s {
        client = record s.client { send_q = s.client.send_q ++ b ∷ [] };
        checked = n;
        sent = s.sent ++ b ∷ [];
      })
  queues-InOrder s b n room v = record {
    flowing = λ h.
        ap (λ l. l ++ b ∷ []) (v.flowing h)
        ∙ append_assoc s.client.wire (held s.hand ++ s.client.send_q) (b ∷ [])
        ∙ ap (λ l. s.client.wire ++ l) (append_assoc (held s.hand) s.client.send_q (b ∷ []));
    written = (
      v.written.0 ++ b ∷ [],
      ap (λ l. l ++ b ∷ []) v.written.1 ∙ append_assoc s.client.wire v.written.0 (b ∷ []),
    );
    alive = v.alive;
    bounded = omega (arith, length-append s.client.send_q (b ∷ []));
    down_closed = v.down_closed;
  }

  shutdown_keeps :
      (c : Client H)
      → ((shutdown close c).send_q ≡ c.send_q)
        × ((shutdown close c).wire ≡ c.wire)
        × ((c.done ≡ true → c.conn_open ≡ false) → (shutdown close c).conn_open ≡ false)
  unfolding shutdown
  shutdown_keeps c = (ground arith, ground arith, λ h. ground (arith, h))

  shutdown-InOrder :
      (s : Line H) (n : ℕ)
      → InOrder s
      → InOrder (record s { client = shutdown close s.client; checked = n })
  shutdown-InOrder s n v =
      let (queue, wire, closed) = shutdown_keeps s.client in
      record {
        flowing = λ h. v.flowing h ∙ (λ i. sym wire i ++ (held s.hand ++ sym queue i));
        written = (v.written.0, v.written.1 ∙ ap (λ l. l ++ v.written.0) (sym wire));
        alive = v.alive;
        bounded = subst (λ q. length q ≤ send_queue_depth) (sym queue) v.bounded;
        down_closed = λ h. closed v.down_closed;
      }

  takes-InOrder :
      (s : Line H) (b : Bytes) (q : List Bytes)
      → s.running ≡ true
      → s.hand ≡ none
      → s.client.send_q ≡ b ∷ q
      → InOrder s
      → InOrder (record s { client = record s.client { send_q = q }; hand = some b })
  takes-InOrder s b q run free e v = record {
    flowing = λ h. v.flowing h ∙ (λ i. s.client.wire ++ (held (free i) ++ e i));
    written = v.written;
    alive = λ x h. run;
    bounded = omega (arith, ap length e, v.bounded);
    down_closed = v.down_closed;
  }

  writes-InOrder :
      (s : Line H) (b : Bytes)
      → s.hand ≡ some b
      → InOrder s
      → InOrder
          (record s { client = record s.client { wire = s.client.wire ++ b ∷ [] }; hand = none })
  writes-InOrder s b busy v =
      let all : s.sent ≡ (s.client.wire ++ b ∷ []) ++ s.client.send_q =
        v.flowing (v.alive b busy)
        ∙ ap (λ h. s.client.wire ++ (held h ++ s.client.send_q)) busy
        ∙ sym (append_assoc s.client.wire (b ∷ []) s.client.send_q) in
      record {
        flowing = λ h. all;
        written = (s.client.send_q, all);
        alive = λ x h. absurd (cc);
        bounded = v.bounded;
        down_closed = v.down_closed;
      }

  ended-InOrder : (s : Line H) → s.hand ≡ none → InOrder s → InOrder (record s { running = false })
  ended-InOrder s free v = record {
    flowing = λ h. absurd (cc);
    written = v.written;
    alive = λ x h. absurd (cc);
    bounded = v.bounded;
    down_closed = v.down_closed;
  }

  lost-InOrder : (s : Line H) → InOrder s → InOrder (record s { hand = none; running = false })
  lost-InOrder s v = record {
    flowing = λ h. absurd (cc);
    written = v.written;
    alive = λ x h. absurd (cc);
    bounded = v.bounded;
    down_closed = v.down_closed;
  }

  counted-InOrder : (s : Line H) (n : ℕ) → InOrder s → InOrder (record s { checked = n })
  counted-InOrder s n v = record {
    flowing = v.flowing;
    written = v.written;
    alive = v.alive;
    bounded = v.bounded;
    down_closed = v.down_closed;
  }

  Step-InOrder : {s t : Line H} → Step close s t → InOrder s → InOrder t
  Step-InOrder {s} (checks up) v = counted-InOrder s (suc s.checked) v
  Step-InOrder {s} (queues b n e room) v = queues-InOrder s b n room v
  Step-InOrder {s} (gives_up n e down) v = counted-InOrder s n v
  Step-InOrder {s} (drops n e up full) v = shutdown-InOrder s n v
  Step-InOrder {s} (takes b q run free e) v = takes-InOrder s b q run free e v
  Step-InOrder {s} (writes b busy open_still) v = writes-InOrder s b busy v
  Step-InOrder {s} (write_fails b busy) v =
      lost-InOrder (record s { client = shutdown close s.client }) (shutdown-InOrder s s.checked v)
  Step-InOrder {s} shuts v = shutdown-InOrder s s.checked v
  Step-InOrder {s} (stops free down) v = ended-InOrder s free v

  Reach-InOrder : {s t : Line H} → Reach close s t → InOrder s → InOrder t
  Reach-InOrder here v = v
  Reach-InOrder (next r st) v = Step-InOrder st (Reach-InOrder r v)

  -- In every run of a new client, however its callers, its writer and its shutdown interleave: what
  -- the peer got is a prefix of the frames that SendBytes accepted, in that order and with none
  -- left out; if the writer still runs and holds nothing and the queue is empty, it is all of them.
  -- The queue never has more than 255 frames, and a client that is down has its connection closed.
  pub peer_gets_prefix :
      (c : Client H) (s : Line H)
      → c.send_q ≡ []
      → c.wire ≡ []
      → c.done ≡ false
      → Reach close (new_line c) s
      → Prefix s.client.wire s.sent
        × (s.running ≡ true → s.hand ≡ none → s.client.send_q ≡ [] → s.sent ≡ s.client.wire)
        × (length s.client.send_q ≤ send_queue_depth)
        × (s.client.done ≡ true → s.client.conn_open ≡ false)
  peer_gets_prefix c s no_queue no_wire up r =
      let v = Reach-InOrder r (record {
        flowing = λ h. sym (λ i. no_wire i ++ no_queue i);
        written = ([], sym (ap (λ l. l ++ []) no_wire));
        alive = λ x h. absurd (cc);
        bounded = omega (arith, ap length no_queue);
        down_closed = λ h. absurd (cc);
      }) in
      (
        v.written,
        λ run free empty.
            v.flowing run
            ∙ (λ i. s.client.wire ++ (held (free i) ++ empty i))
            ∙ append-nil s.client.wire,
        v.bounded,
        v.down_closed,
      )
