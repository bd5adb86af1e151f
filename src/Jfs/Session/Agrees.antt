-- ===== src/Jfs/Session/Agrees.antt =====
-- The list of watches of a client and what its peer has been told, over a whole connection.
use fs_lib.Prelude.{
  ◌≤◌, List, [], ◌∷◌, ◌++◌, ◌≡◌, ◌⊎◌, inl, inr, sym, ap, ◌∙◌, Bool, true, false, none, some, arith,
  Bytes, length, Bool-cases, append_assoc, member, equal,
}
use fs_lib.Wire.Message.{msg_watch, msg_unwatch}
use fs_lib.Jfs.Chan.{done, bind-done, done-injective}
use fs_lib.Jfs.Watcher.{
  InitTask, clear_first, add_watch, Watcher, full_name, send, add, without, remove_watch,
}
use fs_lib.Jfs.Watcher.Watches.{frame, queued, send-queued}
use fs_lib.Jfs.Session.{Session, held, due, frames}
use fs_lib.Jfs.Session.Told.{tells, mention, or_else, told, mention-append, mention_one, AllFit}

-- The replay is the last task.
abbrev pub ends_replay : List InitTask → Bool
ends_replay [] = true
ends_replay (clear_first ∷ []) = false
ends_replay (add_watch ∷ []) = true
ends_replay (t ∷ u ∷ ts) = ends_replay (u ∷ ts)

-- The last word of the frames on a path, if there is one, is that of the list.
abbrev pub LastIs : List Bytes → List Bytes → Type 0
LastIs bs watches = (p : Bytes) (b : Bool) → mention bs p ≡ some b → b ≡ member p watches

pub record Agrees (s : Session) : Type 0 where
  pub short : length (full_name s.watcher) ≤ 255
  pub fit : AllFit s.watcher.watches
  pub linked : s.watcher.connected ≡ true
  pub replay_last : ends_replay s.watcher.init_task.queue ≡ true
  pub due_last : LastIs (due s) s.watcher.watches
  pub told_only : (p : Bytes) → told (frames s) p ≡ true → member p s.watcher.watches ≡ true
  pub told_all :
      s.watcher.init_task.queue ≡ []
      → (p : Bytes) → member p s.watcher.watches ≡ true
      → told (frames s) p ≡ true

pub AllFit-append : (xs ys : List Bytes) → AllFit xs → AllFit ys → AllFit (xs ++ ys)
AllFit-append [] ys hx hy = hy
AllFit-append (x ∷ xs) ys hx hy = (hx.0, AllFit-append xs ys hx.1 hy)

pub AllFit-without : (path : Bytes) (xs : List Bytes) → AllFit xs → AllFit (without path xs)
unfolding without
AllFit-without path [] h = h
AllFit-without path (x ∷ xs) h = elim (Bool-cases (equal x path)) [
  | inl same ↦ rw same (AllFit-without path xs h.1)
  | inr other ↦ rw other (h.0, AllFit-without path xs h.1)
]

pub add-queued :
    (path : Bytes) (w w' : Watcher)
    → add path w ≡ done w'
    → w' ≡ record (queued (frame msg_watch (path ∷ []) w) w) { watches = w.watches ++ path ∷ [] }
unfolding add
add-queued path w w' e =
    let (v, sent, rest) = bind-done (send msg_watch (path ∷ []) w) _ e in
    sym (done-injective (record v { watches = v.watches ++ path ∷ [] }) w' rest)
    ∙ ap (λ (x : Watcher). record x { watches = x.watches ++ path ∷ [] })
        (send-queued msg_watch (path ∷ []) w v sent)

pub remove-queued :
    (path : Bytes) (w w' : Watcher)
    → remove_watch path w ≡ done w'
    → w' ≡ record (queued (frame msg_unwatch (path ∷ []) w) w) { watches = without path w.watches }
unfolding remove_watch
remove-queued path w w' e =
    let (v, sent, rest) = bind-done (send msg_unwatch (path ∷ []) w) _ e in
    sym (done-injective (record v { watches = without path v.watches }) w' rest)
    ∙ ap (λ (x : Watcher). record x { watches = without path x.watches })
        (send-queued msg_unwatch (path ∷ []) w v sent)

-- One more frame at the end of the queue.
mention_last :
    (bs q : List Bytes) (f p : Bytes)
    → mention (bs ++ (q ++ f ∷ [])) p ≡ or_else (tells f p) (mention (bs ++ q) p)
mention_last bs q f p =
    ap (λ l. mention l p) (sym (append_assoc bs q (f ∷ [])))
    ∙ mention-append (bs ++ q) (f ∷ []) p
    ∙ ap (λ o. or_else o (mention (bs ++ q) p)) (mention_one f p)

abbrev pub with_frame : Bytes → List Bytes → Session → Session
with_frame f watches s = record s { watcher = record (queued f s.watcher) { watches = watches } }

pub mention-due :
    (f : Bytes) (ws : List Bytes) (s : Session) (p : Bytes)
    → mention (due (with_frame f ws s)) p ≡ or_else (tells f p) (mention (due s) p)
mention-due f ws s p = mention_last (held s.hand) s.watcher.send_q.queue f p

pub mention-frames :
    (f : Bytes) (ws : List Bytes) (s : Session) (p : Bytes)
    → mention (frames (with_frame f ws s)) p ≡ or_else (tells f p) (mention (frames s) p)
mention-frames f ws s p =
    ap (λ l. mention (s.watcher.wire ++ l) p)
      (sym (append_assoc (held s.hand) s.watcher.send_q.queue (f ∷ [])))
    ∙ mention_last s.watcher.wire (due s) f p

-- A frame that says how the list has changed.
abbrev pub Reports : Bytes → List Bytes → List Bytes → Type 0
Reports f old new =
    (p : Bytes)
    → (tells f p ≡ some (member p new)) ⊎ ((tells f p ≡ none) × (member p new ≡ member p old))

pub with_frame-Agrees :
    (f : Bytes) (ws : List Bytes) (s : Session)
    → AllFit ws
    → Reports f s.watcher.watches ws
    → Agrees s
    → Agrees (with_frame f ws s)
with_frame-Agrees f ws s fit reports v = record {
  short = v.short;
  fit = fit;
  linked = v.linked;
  replay_last = v.replay_last;
  due_last = λ p b h. elim (reports p) [
    | inl e ↦ ground (arith, mention-due f ws s p)
    | inr (e, same) ↦ v.due_last p b (ground (arith, mention-due f ws s p)) ∙ sym same
  ];
  told_only = λ p h. elim (reports p) [
    | inl e ↦ ground (arith, mention-frames f ws s p)
    | inr (e, same) ↦ same ∙ v.told_only p (ground (arith, mention-frames f ws s p))
  ];
  told_all = λ idle p h. elim (reports p) [
    | inl e ↦ ground (arith, mention-frames f ws s p)
    | inr (e, same) ↦ ground (arith, mention-frames f ws s p, v.told_all idle p (sym same ∙ h))
  ];
}
