-- ===== src/Jfs/Session/Kept.antt =====
-- Each step of a connection, and the peer's knowledge of the watches.
use fs_lib.Prelude.{
  member-append, ◌≤◌, List, [], ◌∷◌, ◌++◌, ◌≡◌, ◌≢◌, ◌⊎◌, inl, inr, refl, sym, ap, ◌∙◌, subst, true,
  false, Option, none, some, ◌==◌, if◌then◌else◌, arith, Bytes, length, Bool-cases, member, equal,
  equal_iff,
}
use fs_lib.Wire.Codec.{Fits, field}
use fs_lib.Wire.Message.{package_msg, msg_watch, msg_unwatch, msg_clear}
use fs_lib.Jfs.Chan.{done}
use fs_lib.Jfs.Watcher.{
  InitTask, clear_first, add_watch, Watcher, full_name, add, without, remove_watch, sync_write,
}
use fs_lib.Jfs.Watcher.Watches.{frame, queued, send-queued, member-without}
use fs_lib.Jfs.Connection.{after_write, run_task}
use fs_lib.Jfs.Session.{Session, with_tasks, due, frames}
use fs_lib.Jfs.Session.Told.{
  tells, mention, or_else, told, mention-append, mention_one, AllFit, tells-frame, tells_clear,
}
use fs_lib.Jfs.Session.Agrees.{
  ends_replay, Agrees, AllFit-append, AllFit-without, add-queued, remove-queued, with_frame,
  mention-due, mention-frames, with_frame-Agrees,
}

pub adds-Agrees :
    (path : Bytes) (s : Session) (w : Watcher)
    → Fits 255 path
    → add path s.watcher ≡ done w
    → Agrees s
    → Agrees (record s { watcher = w })
unfolding member
adds-Agrees path s w fits e v =
    let f = frame msg_watch (path ∷ []) s.watcher in
    subst (λ x. Agrees (record s { watcher = x })) (sym (add-queued path s.watcher w e))
      (with_frame-Agrees f (s.watcher.watches ++ path ∷ []) s
        (AllFit-append s.watcher.watches (path ∷ []) v.fit (fits, tt))
        (λ p.
          let told_of =
            tells-frame msg_watch (path ∷ []) s.watcher p (omega arith) v.short (fits, tt) in
          let now = member-append p s.watcher.watches (path ∷ []) in
          elim (Bool-cases (equal path p)) [
            | inl hit ↦ inl (ground (arith, told_of, now))
            | inr miss ↦ inr (ground (arith, told_of), ground (arith, now))
          ])
        v)

pub removes-Agrees :
    (path : Bytes) (s : Session) (w : Watcher)
    → Fits 255 path
    → remove_watch path s.watcher ≡ done w
    → Agrees s
    → Agrees (record s { watcher = w })
unfolding member
removes-Agrees path s w fits e v =
    let f = frame msg_unwatch (path ∷ []) s.watcher in
    subst (λ x. Agrees (record s { watcher = x })) (sym (remove-queued path s.watcher w e))
      (with_frame-Agrees f (without path s.watcher.watches) s
        (AllFit-without path s.watcher.watches v.fit)
        (λ p.
          let told_of =
            tells-frame msg_unwatch (path ∷ []) s.watcher p (omega arith) v.short (fits, tt) in
          let now = member-without path p s.watcher.watches in
          elim (Bool-cases (equal path p)) [
            | inl hit ↦ inl (ground (arith, told_of, now, equal_iff p path, equal_iff path p))
            | inr miss ↦
                inr
                  (ground (arith, told_of), ground (arith, now, equal_iff p path, equal_iff path p))
          ])
        v)

ends_replay-tail :
    (t : InitTask) (ts : List InitTask) → ends_replay (t ∷ ts) ≡ true → ends_replay ts ≡ true
ends_replay-tail t [] h = refl
ends_replay-tail clear_first (u ∷ ts) h = h
ends_replay-tail add_watch (u ∷ ts) h = h

clear_not_last : (ts : List InitTask) → ends_replay (clear_first ∷ ts) ≡ true → ts ≢ []
clear_not_last [] h = λ e. cc
clear_not_last (u ∷ ts) h = λ e. cc

-- The session with these tasks left, and with this frame written.
abbrev pub left_with : List InitTask → Session → Session
left_with ts s = record s { watcher = with_tasks ts s.watcher }

abbrev clear_frame : Watcher → Bytes
clear_frame w = package_msg msg_clear (field 255 (full_name w))

pub written_clear : Watcher → Watcher
written_clear w = record w { wire = w.wire ++ clear_frame w ∷ [] }

pub run_clear :
    (w w' : Watcher)
    → w.connected ≡ true
    → run_task none clear_first w ≡ done w'
    → w' ≡ written_clear w
unfolding run_task after_write sync_write written_clear
run_clear w w' up h = ground arith

pub run_replay :
    (w w' : Watcher)
    → w.connected ≡ true
    → run_task none add_watch w ≡ done w'
    → ((w.watches ≡ []) × (w' ≡ w)) ⊎ (w' ≡ queued (frame msg_watch w.watches w) w)
unfolding run_task
run_replay w w' up h = elim (Bool-cases (length w.watches == 0)) [
  | inl empty ↦ inl (no_watches w.watches empty, ground arith)
  | inr some_left ↦ inr (send-queued msg_watch w.watches w w' (ground arith))
]
  where
    no_watches : (l : List Bytes) → (length l == 0) ≡ true → l ≡ []
    no_watches [] e = refl
    no_watches (x ∷ l) e = ground arith

mention_cleared :
    (s : Session) (ts : List InitTask) (p : Bytes)
    → mention (frames (record s { watcher = written_clear (with_tasks ts s.watcher) })) p
      ≡ or_else (mention (due s) p) (some false)
unfolding written_clear
mention_cleared s ts p =
    let c = clear_frame s.watcher in
    mention-append (s.watcher.wire ++ c ∷ []) (due s) p
    ∙ ap (or_else (mention (due s) p)) (
        mention-append s.watcher.wire (c ∷ []) p
        ∙ ap (λ o. or_else o (mention s.watcher.wire p))
            (mention_one c p ∙ tells_clear (field 255 (full_name s.watcher)) p))

pub clears-Agrees :
    (s : Session) (ts : List InitTask)
    → ends_replay (clear_first ∷ ts) ≡ true
    → Agrees s
    → Agrees (record s { watcher = written_clear (with_tasks ts s.watcher) })
unfolding written_clear
clears-Agrees s ts shape v = record {
  short = v.short;
  fit = v.fit;
  linked = v.linked;
  replay_last = ends_replay-tail clear_first ts shape;
  due_last = v.due_last;
  told_only = λ p h. sym (v.due_last p true (ground (arith, mention_cleared s ts p)));
  told_all = λ idle p h. absurd (clear_not_last ts shape idle);
}

pub replays-Agrees :
    (s : Session) (ts : List InitTask)
    → ends_replay (add_watch ∷ ts) ≡ true
    → Agrees s
    → Agrees (
        with_frame (frame msg_watch s.watcher.watches s.watcher) s.watcher.watches (left_with ts s))
replays-Agrees s ts shape v = record {
  short = v.short;
  fit = v.fit;
  linked = v.linked;
  replay_last = ends_replay-tail add_watch ts shape;
  due_last =
      λ p b h. ground (arith, says_all p, mention-due f ws (left_with ts s) p, v.due_last p b);
  told_only =
      λ p h. ground (arith, says_all p, mention-frames f ws (left_with ts s) p, v.told_only p);
  told_all = λ idle p h. ground (arith, says_all p, mention-frames f ws (left_with ts s) p);
}
  where
    ws : List Bytes
    ws = s.watcher.watches

    f : Bytes
    f = frame msg_watch ws s.watcher

    says_all : (p : Bytes) → tells f p ≡ (if member p ws then some true else none)
    says_all p = tells-frame msg_watch ws s.watcher p (omega arith) v.short v.fit

-- Tasks that were taken without a watch to replay.
pub nothing_to_replay-Agrees :
    (s : Session) (t : InitTask) (ts : List InitTask)
    → s.watcher.watches ≡ []
    → ends_replay (t ∷ ts) ≡ true
    → Agrees s
    → Agrees (left_with ts s)
nothing_to_replay-Agrees s t ts empty shape v = record {
  short = v.short;
  fit = v.fit;
  linked = v.linked;
  replay_last = ends_replay-tail t ts shape;
  due_last = v.due_last;
  told_only = v.told_only;
  told_all = λ idle p h. unfold member in ground (arith, ap (member p) empty);
}

-- A session with the same list whose frames on their way are the last of the former ones.
pub moved-Agrees :
    (s : Session) (w : Watcher) (hand : Option Bytes) (front : List Bytes)
    → full_name w ≡ full_name s.watcher
    → w.watches ≡ s.watcher.watches
    → w.connected ≡ s.watcher.connected
    → w.init_task.queue ≡ s.watcher.init_task.queue
    → due s ≡ front ++ due (record s { watcher = w; hand = hand })
    → frames (record s { watcher = w; hand = hand }) ≡ frames s
    → Agrees s
    → Agrees (record s { watcher = w; hand = hand })
moved-Agrees s w hand front name list link tasks later same v = record {
  short = subst (λ n. length n ≤ 255) (sym name) v.short;
  fit = subst AllFit (sym list) v.fit;
  linked = link ∙ v.linked;
  replay_last = ap ends_replay tasks ∙ v.replay_last;
  due_last = λ p b h.
      v.due_last p b (
        ap (λ l. mention l p) later
        ∙ mention-append front _ p
        ∙ ap (λ o. or_else o (mention front p)) h)
      ∙ ap (member p) (sym list);
  told_only = λ p h. ap (member p) list ∙ v.told_only p (ap (λ l. told l p) (sym same) ∙ h);
  told_all = λ idle p h.
      ap (λ l. told l p) same ∙ v.told_all (sym tasks ∙ idle) p (ap (member p) (sym list) ∙ h);
}
