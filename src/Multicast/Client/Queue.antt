-- ===== src/Multicast/Client/Queue.antt =====
-- The queue of a client: its bound, its order, and that a shutdown is final.
use fs_lib.Prelude.{
  ◌≤◌, ◌<◌, List, [], ◌∷◌, ◌++◌, ◌≡◌, ◌≢◌, refl, sym, ap, subst, inl, inr, Bool, true, false,
  Bool-cases, arith, Bytes, length, length-append, append_assoc,
}
use fs_lib.Multicast.Client.{
  Client, queued, send_queue_depth, remove_channel, shutdown, send_bytes, write_round, write_loop,
}

-- The frames that the client has accepted, in order: those on the wire and those queued.
abbrev pub accepted : {H : Type 0} → Client H → List Bytes
accepted c = c.wire ++ c.send_q

-- The queue is within its bound; a client that is down has its connection closed and is not in
-- the table.
pub record IsSound {H : Type 0} (c : Client H) : Type 0 where
  pub bounded : length c.send_q ≤ send_queue_depth
  pub down_closed : c.done ≡ true → c.conn_open ≡ false
  pub down_removed : c.done ≡ true → c.published ≡ false

module _ {H : Type 0} (close : H → H) where
  pub shutdown-IsSound : (c : Client H) → IsSound c → IsSound (shutdown close c)
  unfolding shutdown
  shutdown-IsSound c v = ground arith

  pub send_bytes-IsSound : (b : Bytes) (c : Client H) → IsSound c → IsSound (send_bytes close b c).0
  unfolding send_bytes
  send_bytes-IsSound b c v = ground (arith, length-append c.send_q (b ∷ []))

  write_round-IsSound :
      (ok_write : Bool) (q : List Bytes) (c : Client H)
      → c.done ≡ false
      → c.send_q ≡ q
      → IsSound c
      → IsSound (write_round close ok_write q c)
  unfolding write_round shutdown
  write_round-IsSound ok_write [] c up e v = v
  write_round-IsSound ok_write (b ∷ q) c up e v = ground (arith, ap length e)

  write_loop_up :
      (ok_write : Bool) (c : Client H)
      → c.done ≡ false
      → write_loop close ok_write c ≡ write_round close ok_write c.send_q c
  unfolding write_loop
  write_loop_up ok_write c up = ground arith

  write_loop_down :
      (ok_write : Bool) (c : Client H) → c.done ≡ true → write_loop close ok_write c ≡ c
  unfolding write_loop
  write_loop_down ok_write c down = ground arith

  pub write_loop-IsSound :
      (ok_write : Bool) (c : Client H) → IsSound c → IsSound (write_loop close ok_write c)
  write_loop-IsSound ok_write c v = elim (Bool-cases c.done) [
    | inl down ↦ subst IsSound (sym (write_loop_down ok_write c down)) v
    | inr up ↦
        subst IsSound (sym (write_loop_up ok_write c up))
          (write_round-IsSound ok_write c.send_q c up refl v)
  ]

  -- SendBytes appends the frame to what was accepted if it returns nil, and otherwise accepts
  -- nothing and leaves the client down; it never returns nil on a client that is down, nor on
  -- one whose queue is full.
  pub send_bytes-accepted :
      (b : Bytes) (c : Client H)
      → ((send_bytes close b c).1 ≡ queued
          → (accepted (send_bytes close b c).0 ≡ accepted c ++ b ∷ [])
            × (c.done ≡ false)
            × (length c.send_q < send_queue_depth))
        × ((send_bytes close b c).1 ≢ queued
            → (accepted (send_bytes close b c).0 ≡ accepted c)
              × ((send_bytes close b c).0.done ≡ true))
  unfolding send_bytes shutdown
  send_bytes-accepted b c =
      (λ h. ground (arith, append_assoc c.wire c.send_q (b ∷ [])), λ h. ground arith)

  write_round-accepted :
      (q : List Bytes) (c : Client H)
      → c.send_q ≡ q
      → accepted (write_round close true q c) ≡ accepted c
  unfolding write_round
  write_round-accepted [] c e = refl
  write_round-accepted (b ∷ q) c e = rw e (append_assoc c.wire (b ∷ []) q)

  -- A round of writeLoop whose write succeeds moves a frame to the wire and keeps the order and
  -- the content of what was accepted.
  pub write_loop-accepted : (c : Client H) → accepted (write_loop close true c) ≡ accepted c
  unfolding write_loop
  write_loop-accepted c = ground (arith, write_round-accepted c.send_q c refl)

  -- A second shutdown changes nothing, and the first one closes the helper once.
  pub shutdown_once :
      (c : Client H)
      → (shutdown close (shutdown close c) ≡ shutdown close c)
        × (c.done ≡ false
            → shutdown close c ≡ remove_channel close (record c { done = true; conn_open = false }))
  unfolding shutdown
  shutdown_once c = (ground arith, λ h. ground arith)

  -- SendBytes, a round of the writer that succeeds or fails, and a shutdown keep a client's queue
  -- within 255 frames, its connection closed once it is down, and a client that is down out of
  -- the table.
  pub client-IsSound :
      (b : Bytes) (ok_write : Bool) (c : Client H)
      → IsSound c
      → IsSound (send_bytes close b c).0
        × IsSound (write_loop close ok_write c)
        × IsSound (shutdown close c)
  client-IsSound b ok_write c v =
      (send_bytes-IsSound b c v, write_loop-IsSound ok_write c v, shutdown-IsSound c v)
