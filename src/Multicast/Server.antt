-- ===== src/Multicast/Server.antt =====
-- Server of k8s/pkg/multicast/server.go: the table of clients and the fan-out to them. The client
-- objects are kept by their ids, those that watchClients holds are the published ones. `order` is
-- the order in which Go's `range` visits the table.
use fs_lib.Prelude.{
  List, [], ◌∷◌, ◌≡◌, refl, ap, ◌∙◌, inl, inr, Bool, true, false, ◌&&◌, ◌||◌, Option, none, some,
  Option-cases, if◌then◌else◌, arith, Bytes, equal, equal_iff, Map, lookup, insert, keys,
  lookup-insert, member, distinct, IsRangeOrder,
}
use fs_lib.Multicast.Client.{Client, new_client}

-- MsgWriter, on the client that it hangs on: a write goes through the client's queue.
pub record MsgWriter (H : Type 0) : Type 0 where
  pub write_msg : Bytes → Client H → Client H
  pub close : H → H

abbrev pub Server : Type 0 → Type 0
Server H = Map (Client H)

module _ {H : Type 0} (writer : MsgWriter H) (order : List Bytes → List Bytes) where
  -- onNewClientCallback of NewWithoutSubscriber, with the new UUID and what InitClient sets
  unfoldable pub on_new_client : Bytes → Option H → Server H → Server H
  on_new_client cid helper s =
      insert cid (record new_client { cid = cid; helper = helper; published = true }) s

  -- messageReceived; `none` is a nil ChannelMessageProc, and an error is logged.
  unfoldable pub message_received :
      {E : Type 0} → Option (Client H → Bytes → Client H × Option E) → Client H → Bytes → Client H
  message_received none c msg = c
  message_received (some process) c msg = (process c msg).0

  unfoldable pub has_helper : Option H → Bool
  has_helper none = false
  has_helper (some h) = true

  abbrev pub is_writer : Client H → Bool
  unfolding has_helper
  is_writer c = c.published && has_helper c.helper

  -- The ids of the closures that Deliver collects in `funcs`.
  writers : Server H → List Bytes
  unfolding has_helper
  writers [] = []
  writers ((cid, c) ∷ s) = if is_writer c then cid ∷ writers s else writers s

  -- One closure: WriteMsg on its client; an error is logged.
  run_writer : Bytes → Bytes → Server H → Server H
  run_writer msg cid s = elim (lookup cid s) [
    | none ↦ s
    | some c ↦ insert cid (writer.write_msg msg c) s
  ]

  run_writers : Bytes → List Bytes → Server H → Server H
  unfolding run_writer
  run_writers msg [] s = s
  run_writers msg (cid ∷ cids) s = run_writers msg cids (run_writer msg cid s)

  -- Deliver
  unfoldable pub deliver : Bytes → Server H → Server H
  unfolding writers run_writers
  deliver msg s = run_writers msg (order (writers s)) s

  member-writers :
      (j : Bytes) (s : Server H) → member j (keys s) ≡ false → member j (writers s) ≡ false
  unfolding writers member
  member-writers j [] h = refl
  member-writers j ((i, c) ∷ s) h = ground (arith, member-writers j s)

  distinct-writers : (s : Server H) → distinct (keys s) ≡ true → distinct (writers s) ≡ true
  unfolding writers distinct
  distinct-writers [] h = refl
  distinct-writers ((i, c) ∷ s) h = ground (arith, distinct-writers s, member-writers i s)

  abbrev pub writes : Option (Client H) → Bool
  writes none = false
  writes (some c) = is_writer c

  writers-lookup :
      (j : Bytes) (s : Server H)
      → distinct (keys s) ≡ true
      → member j (writers s) ≡ writes (lookup j s)
  unfolding writers distinct member lookup
  writers-lookup j [] h = refl
  writers-lookup j ((i, c) ∷ s) h =
      ground (arith, equal_iff i j, writers-lookup j s, member-writers j s)

  abbrev pub written : Bytes → Bool → Option (Client H) → Option (Client H)
  written msg run none = none
  written msg run (some c) = some (if run then writer.write_msg msg c else c)

  run_writer-lookup :
      (msg j cid : Bytes) (s : Server H)
      → lookup j (run_writer msg cid s) ≡ written msg (equal cid j) (lookup j s)
  unfolding run_writer
  run_writer-lookup msg j cid s = elim (Option-cases (lookup cid s)) [
    | inl absent ↦ ground (arith, equal_iff cid j)
    | inr (c, found) ↦
        ground (arith, equal_iff cid j, lookup-insert cid j (writer.write_msg msg c) s)
  ]

  written-written :
      (msg j cid : Bytes) (cids : List Bytes) (o : Option (Client H))
      → member cid cids ≡ false
      → written msg (member j cids) (written msg (equal cid j) o)
        ≡ written msg (equal cid j || member j cids) o
  written-written msg j cid cids none h = refl
  written-written msg j cid cids (some c) h = ground (arith, equal_iff cid j)

  run_writers-lookup :
      (msg j : Bytes) (cids : List Bytes) (s : Server H)
      → distinct cids ≡ true
      → lookup j (run_writers msg cids s) ≡ written msg (member j cids) (lookup j s)
  unfolding run_writers distinct member
  run_writers-lookup msg j [] s h = elim (Option-cases (lookup j s)) [
    | inl e ↦ rw e refl
    | inr (c, e) ↦ rw e refl
  ]
  run_writers-lookup msg j (cid ∷ cids) s h =
      run_writers-lookup msg j cids (run_writer msg cid s) (ground arith)
      ∙ ap (written msg (member j cids)) (run_writer-lookup msg j cid s)
      ∙ written-written msg j cid cids (lookup j s) (ground arith)

  -- Deliver writes the message once to each client in the table that has a helper, and leaves
  -- every other client as it was: what one client's writer does, a full queue or a shutdown
  -- included, changes no other client, whatever the order of the visits.
  pub deliver-lookup :
      IsRangeOrder order
      → (msg j : Bytes) (s : Server H) → distinct (keys s) ≡ true
      → lookup j (deliver msg s) ≡ written msg (writes (lookup j s)) (lookup j s)
  unfolding deliver
  deliver-lookup range msg j s h =
      run_writers-lookup msg j (order (writers s)) s (range.once _ (distinct-writers s h))
      ∙ ap (λ b. written msg b (lookup j s)) (range.same j (writers s) ∙ writers-lookup j s h)
