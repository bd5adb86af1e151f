-- ===== src/Jfs/Session/Quiet.antt =====
-- Runs of a connection, and where they come to rest.
use fs_lib.Prelude.{
  Option, ◌≤◌, List, [], ◌∷◌, ◌++◌, ◌≡◌, ◌≢◌, inl, inr, refl, sym, ap, ◌∙◌, subst, Bool, true,
  false, none, some, arith, Bytes, length, append_assoc, append-nil, member,
}
use mathlib.Core.Path.{ap₂}
use fs_lib.Jfs.Chan.{done, ◌>>=◌}
use fs_lib.Wire.Codec.{Fits}
use fs_lib.Wire.Message.{msg_watch}
use fs_lib.Jfs.Watcher.{add, send, InitTask, clear_first, add_watch, Watcher, full_name, sync_write}
use fs_lib.Jfs.Connection.{run_task}
use fs_lib.Jfs.Session.{
  Session, with_queue, with_tasks, begin, append_watch, MayGo, Step, add_sends, add_appends,
  removes, runs, takes, writes, old_takes, old_writes, Reach, here, next, held, due, frames,
}
use fs_lib.Jfs.Session.Told.{mention, or_else, told, mention-append, AllFit}
use fs_lib.Jfs.Session.Agrees.{ends_replay, LastIs, Agrees}
use fs_lib.Jfs.Session.Kept.{
  adds-Agrees, removes-Agrees, run_clear, run_replay, clears-Agrees, replays-Agrees,
  nothing_to_replay-Agrees, moved-Agrees,
}

runs-Agrees :
    (s : Session) (t : InitTask) (ts : List InitTask) (w : Watcher)
    → s.watcher.init_task.queue ≡ t ∷ ts
    → run_task none t (with_tasks ts s.watcher) ≡ done w
    → Agrees s
    → Agrees (record s { watcher = w })
runs-Agrees s clear_first ts w queued_first e v =
    subst (λ x. Agrees (record s { watcher = x }))
      (sym (run_clear (with_tasks ts s.watcher) w v.linked e))
      (clears-Agrees s ts (ap ends_replay (sym queued_first) ∙ v.replay_last) v)
runs-Agrees s add_watch ts w queued_first e v =
    let shape = ap ends_replay (sym queued_first) ∙ v.replay_last in
    elim (run_replay (with_tasks ts s.watcher) w v.linked e) [
      | inl (empty, same) ↦
          subst (λ x. Agrees (record s { watcher = x })) (sym same)
            (nothing_to_replay-Agrees s add_watch ts empty shape v)
      | inr sent ↦
          subst (λ x. Agrees (record s { watcher = x })) (sym sent) (replays-Agrees s ts shape v)
    ]

takes-Agrees :
    (s : Session) (b : Bytes) (q : List Bytes)
    → s.hand ≡ none
    → s.watcher.send_q.queue ≡ b ∷ q
    → Agrees s
    → Agrees (record s { watcher = with_queue q s.watcher; hand = some b })
takes-Agrees s b q free e v =
    let same : due s ≡ b ∷ q = ap₂ (λ h l. held h ++ l) free e in
    moved-Agrees s (with_queue q s.watcher) (some b) [] refl refl refl refl same
      (ap (λ l. s.watcher.wire ++ l) (sym same)) v

write_done :
    (b : Bytes) (w w' : Watcher)
    → sync_write none b w ≡ (w', none)
    → w' ≡ record w { wire = w.wire ++ b ∷ [] }
unfolding sync_write
write_done b w w' e = ground arith

writes-Agrees :
    (s : Session) (b : Bytes) (w : Watcher)
    → s.hand ≡ some b
    → sync_write none b s.watcher ≡ (w, none)
    → Agrees s
    → Agrees (record s { watcher = w; hand = none })
writes-Agrees s b w busy e v =
    let same : due s ≡ b ∷ s.watcher.send_q.queue =
      ap (λ h. held h ++ s.watcher.send_q.queue) busy in
    subst (λ x. Agrees (record s { watcher = x; hand = none })) (sym (write_done b s.watcher w e))
      (moved-Agrees s (record s.watcher { wire = s.watcher.wire ++ b ∷ [] }) none (b ∷ []) refl refl
        refl refl same
        (append_assoc s.watcher.wire (b ∷ []) s.watcher.send_q.queue
          ∙ ap (λ l. s.watcher.wire ++ l) (sym same))
        v)

-- The list as it is once the Add that is under way has appended its path
abbrev settled_list : Option Bytes → Watcher → Watcher
settled_list none w = w
settled_list (some path) w = append_watch path w

abbrev settled : Session → Session
settled s = record s { watcher = settled_list s.adding s.watcher }

idle_settled : (s : Session) → s.adding ≡ none → settled s ≡ s
idle_settled s idle = ap (λ o. record s { watcher = settled_list o s.watcher }) idle

Keeps : Session → Type 0
Keeps s = Agrees (settled s)

may_go : (s : Session) → MayGo false s → s.adding ≡ none
may_go s (inl h) = cc
may_go s (inr h) = h

-- What Agrees does not read: whether an Add is under way
renamed-Agrees : (s : Session) (o : Option Bytes) → Agrees s → Agrees (record s { adding = o })
renamed-Agrees s o v = record {
  short = v.short;
  fit = v.fit;
  linked = v.linked;
  replay_last = v.replay_last;
  due_last = v.due_last;
  told_only = v.told_only;
  told_all = v.told_all;
}

add_sends-Keeps :
    (s : Session) (path : Bytes) (w : Watcher)
    → Fits 255 path
    → s.adding ≡ none
    → send msg_watch (path ∷ []) s.watcher ≡ done w
    → Keeps s
    → Keeps (record s { watcher = w; adding = some path })
unfolding Keeps add send
add_sends-Keeps s path w fits idle sent v =
    renamed-Agrees (record s { watcher = append_watch path w }) (some path)
      (adds-Agrees path s (append_watch path w) fits
        (ap (λ o. do w' ← o; done (append_watch path w')) sent)
        (subst Agrees (idle_settled s idle) v))

add_appends-Keeps :
    (s : Session) (path : Bytes)
    → s.adding ≡ some path
    → Keeps s
    → Keeps (record s { watcher = append_watch path s.watcher; adding = none })
unfolding Keeps
add_appends-Keeps s path going v =
    renamed-Agrees (record s { watcher = append_watch path s.watcher }) none
      (subst (λ o. Agrees (record s { watcher = settled_list o s.watcher })) going v)

takes-Keeps :
    (s : Session) (b : Bytes) (q : List Bytes) (o : Option Bytes)
    → s.adding ≡ o
    → s.hand ≡ none
    → s.watcher.send_q.queue ≡ b ∷ q
    → Agrees (record s { watcher = settled_list o s.watcher })
    → Agrees (record s { watcher = settled_list o (with_queue q s.watcher); hand = some b })
takes-Keeps s b q none at free e v = takes-Agrees s b q free e v
takes-Keeps s b q (some p) at free e v =
    takes-Agrees (record s { watcher = append_watch p s.watcher }) b q free e v

writes-Keeps :
    (s : Session) (b : Bytes) (w : Watcher) (o : Option Bytes)
    → s.hand ≡ some b
    → sync_write none b s.watcher ≡ (w, none)
    → Agrees (record s { watcher = settled_list o s.watcher })
    → Agrees (record s { watcher = settled_list o w; hand = none })
unfolding sync_write
writes-Keeps s b w none busy e v = writes-Agrees s b w busy e v
writes-Keeps s b w (some p) busy e v =
    writes-Agrees (record s { watcher = append_watch p s.watcher }) b (append_watch p w) busy
      (ground arith) v

Step-Keeps : {s t : Session} → Step false false s t → Keeps s → Keeps t
unfolding Keeps
Step-Keeps {s} (add_sends path {w} fits idle e) v = add_sends-Keeps s path w fits idle e v
Step-Keeps {s} (add_appends path going) v = add_appends-Keeps s path going v
Step-Keeps {s} (removes path {w} fits alone e) v =
    let idle = may_go s alone in
    subst Agrees (sym (idle_settled (record s { watcher = w }) idle))
      (removes-Agrees path s w fits e (subst Agrees (idle_settled s idle) v))
Step-Keeps {s} (runs t ts {w} first alone e) v =
    let idle = may_go s alone in
    subst Agrees (sym (idle_settled (record s { watcher = w }) idle))
      (runs-Agrees s t ts w first e (subst Agrees (idle_settled s idle) v))
Step-Keeps {s} (takes b q free e) v = takes-Keeps s b q s.adding refl free e v
Step-Keeps {s} (writes b {w} busy e) v = writes-Keeps s b w s.adding busy e v
Step-Keeps (old_takes b q left free e) v = cc
Step-Keeps (old_writes b left busy e) v = cc

Reach-Keeps : {s t : Session} → Reach false false s t → Keeps s → Keeps t
Reach-Keeps here v = v
Reach-Keeps (next r st) v = Step-Keeps st (Reach-Keeps r v)

-- A watcher before a connection: its full name and its watches fit their fields, and the frames
-- that still wait in its queue say nothing else than its list.
pub record IsReady (w : Watcher) : Type 0 where
  pub name_fits : length (full_name w) ≤ 255
  pub watches_fit : AllFit w.watches
  pub queue_last : LastIs w.send_q.queue w.watches

ends_replay-last : (ts : List InitTask) → ends_replay (ts ++ add_watch ∷ []) ≡ true
ends_replay-last [] = refl
ends_replay-last (t ∷ []) = elim t [ clear_first ↦ refl | add_watch ↦ refl ]
ends_replay-last (t ∷ u ∷ ts) = skip t (ends_replay-last (u ∷ ts))
  where
    skip :
        (t : InitTask)
        → ends_replay (u ∷ ts ++ add_watch ∷ []) ≡ true
        → ends_replay (t ∷ u ∷ ts ++ add_watch ∷ []) ≡ true
    skip clear_first e = e
    skip add_watch e = e

tasks_left : (ts : List InitTask) → ts ++ add_watch ∷ [] ≢ []
tasks_left [] e = cc
tasks_left (t ∷ ts) e = cc

begin-Agrees : (w : Watcher) → IsReady w → Agrees (begin w)
begin-Agrees w v = record {
  short = v.name_fits;
  fit = v.watches_fit;
  linked = refl;
  replay_last = ends_replay-last w.init_task.queue;
  due_last = v.queue_last;
  told_only = λ p h. sym (v.queue_last p true (ground arith));
  told_all = λ idle p h. absurd (tasks_left w.init_task.queue idle);
}

reached :
    (w : Watcher) (s : Session)
    → IsReady w
    → Reach false false (begin w) s
    → s.adding ≡ none
    → Agrees s
unfolding Keeps
reached w s ready r returned =
    subst Agrees (idle_settled s returned) (Reach-Keeps r (begin-Agrees w ready))

-- When a connection of a ready watcher comes to rest, in any order of calls, tasks and writes, the
-- peer has been told to watch a path exactly if the path is in the watcher's list. Calls come one at
-- a time, none is under way when the connection begins, and no task runs between the two parts of an
-- Add. At rest no call is under way, and no task and no frame is left; the connection has one send
-- routine, and no write has failed.
pub session_agrees :
    (w : Watcher) (s : Session)
    → IsReady w
    → Reach false false (begin w) s
    → s.adding ≡ none
    → s.watcher.init_task.queue ≡ []
    → due s ≡ []
    → (p : Bytes) → told s.watcher.wire p ≡ member p s.watcher.watches
session_agrees w s ready r returned idle empty p =
    let v = reached w s ready r returned in
    let wire : frames s ≡ s.watcher.wire =
      ap (λ l. s.watcher.wire ++ l) empty ∙ append-nil s.watcher.wire in
    ap (λ l. told l p) (sym wire)
    ∙ same_truth (told (frames s) p) (member p s.watcher.watches) (v.told_only p)
        (v.told_all idle p)
  where
    same_truth : (a b : Bool) → (a ≡ true → b ≡ true) → (b ≡ true → a ≡ true) → a ≡ b
    same_truth true b f g = sym (f refl)
    same_truth false true f g = g refl
    same_truth false false f g = refl

-- After any run of a ready watcher's connection with no call under way, the watcher is ready for the
-- next one, whatever is lost with the connection.
pub Reach-IsReady :
    (w : Watcher) (s : Session)
    → IsReady w
    → Reach false false (begin w) s
    → s.adding ≡ none
    → IsReady s.watcher
Reach-IsReady w s ready r returned =
    let v = reached w s ready r returned in
    record {
      name_fits = v.short;
      watches_fit = v.fit;
      queue_last = λ p b h. v.due_last p b (
          mention-append (held s.hand) s.watcher.send_q.queue p
          ∙ ap (λ o. or_else o (mention (held s.hand) p)) h);
    }
