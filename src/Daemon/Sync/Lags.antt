-- ===== src/Daemon/Sync/Lags.antt =====
-- The last words of a queue behind each change, and when one is handled.
use fs_lib.Prelude.{
  false, List, [], ◌∷◌, ◌++◌, ◌≡◌, sym, ap, ◌∙◌, Bool, true, false, none, some, inl, inr,
  Bool-cases, arith, Bytes, ok, member,
}
use fs_lib.Api.{FsWatcher}
use fs_lib.Daemon.Controller.{add, update, delete, EnqueueObj}
use fs_lib.Daemon.Sync.{IpcMessage, wrote, is_self, sync_watches}
use fs_lib.Daemon.Sync.Reconnect.{listed_path}
use fs_lib.Daemon.Sync.Follow.{
  now, hears, IsAbsent, with_self, self_listed, listed_self-append, listed_self_absent,
}
use fs_lib.Daemon.Sync.Lag.{
  Owner, Owned, Queue, item, self_has, word, verdict, SameSelf, now-or_else,
}
use fs_lib.Daemon.Sync.Ownership.{
  AllOwned, AllQueued, AllQueued-append, AllOwned-insert, AllOwned-take_out, not_listed,
  IsAbsent-append, IsAbsent-same, is_self_sym, heard-word,
}
use fs_lib.Daemon.Sync.Settles.{settles-said, settles-silent}

-- The last words of the queue, over what is watched, come to what is listed.
pub record Lags (owner : Owner) (ls : List FsWatcher) (q : Queue) (watching : Bytes → Bool)
    : Type 0 where
  pub owned : AllOwned owner ls
  pub queued : AllQueued owner q
  pub settles : (p : Bytes) → now (verdict q ls p) (watching p) ≡ listed_path ls p

module _ (before after : List FsWatcher) (w : FsWatcher) (no_before : IsAbsent w before)
    (no_after : IsAbsent w after) where
  -- An object that does not list the path, taken out of the list.
  taken_out-SameSelf :
      (p : Bytes)
      → member p w.spec.paths ≡ false
      → SameSelf (before ++ w ∷ after) (before ++ after) p
  taken_out-SameSelf p out x = elim (Bool-cases (is_self x w)) [
    | inl same ↦
        let gone =
          IsAbsent-append x before after (IsAbsent-same x w before same no_before)
            (IsAbsent-same x w after same no_after) in
        ap (λ o. self_has o p)
          (self_listed before after x (IsAbsent-same x w before same no_before)
            (IsAbsent-same x w after same no_after) w same)
        ∙ out
        ∙ sym (ap (λ o. self_has o p) (listed_self_absent x (before ++ after) none gone))
    | inr other ↦
        ap (λ o. self_has o p)
          (listed_self-append x before (w ∷ after) none
            ∙ rw other (sym (listed_self-append x before after none)))
  ]

module _ (owner : Owner) where
  pub creates-Lags :
      (before after : List FsWatcher) (w : FsWatcher) (q : Queue) (watching : Bytes → Bool)
      → Owned owner w
      → IsAbsent w before
      → IsAbsent w after
      → Lags owner (before ++ after) q watching
      → Lags owner (before ++ w ∷ after) (q ++ item add w ∷ []) watching
  creates-Lags before after w q watching hw no_before no_after v =
      let new = before ++ w ∷ after in
      let has = λ (p : Bytes). with_self before after w no_before no_after w p in
      record {
        owned = AllOwned-insert owner before after w v.owned hw;
        queued = AllQueued-append owner q (item add w) v.queued (tt, hw);
        settles = λ p. elim (Bool-cases (member p w.spec.paths)) [
          | inl here ↦
              settles-said q (item add w) new p (watching p) (listed_path new p)
                (ground (arith, has p))
          | inr out ↦
              settles-silent q (item add w) (before ++ after) new p (watching p) (listed_path new p)
                (ground arith) (taken_out-SameSelf before after w no_before no_after p out)
                (v.settles p ∙ ground (arith, has p))
        ];
      }

  pub deletes-Lags :
      (before after : List FsWatcher) (w : FsWatcher) (q : Queue) (watching : Bytes → Bool)
      → IsAbsent w before
      → IsAbsent w after
      → Lags owner (before ++ w ∷ after) q watching
      → Lags owner (before ++ after) (q ++ item delete w ∷ []) watching
  deletes-Lags before after w q watching no_before no_after v =
      let (hw, rest) = AllOwned-take_out owner before after w v.owned in
      let new = before ++ after in
      let away = IsAbsent-append w before after no_before no_after in
      let has = λ (p : Bytes). with_self before after w no_before no_after w p in
      record {
        owned = rest;
        queued = AllQueued-append owner q (item delete w) v.queued (tt, hw);
        settles = λ p. elim (Bool-cases (member p w.spec.paths)) [
          | inl here ↦
              settles-said q (item delete w) new p (watching p) (listed_path new p)
                (ground (arith, not_listed owner w new p hw rest away here))
          | inr out ↦
              settles-silent q (item delete w) (before ++ w ∷ after) new p (watching p)
                (listed_path new p) (ground arith)
                (λ x. sym (taken_out-SameSelf before after w no_before no_after p out x))
                (v.settles p ∙ ground (arith, has p))
        ];
      }

  pub updates-Lags :
      (before after : List FsWatcher) (w self : FsWatcher) (q : Queue) (watching : Bytes → Bool)
      → Owned owner self
      → IsAbsent w before
      → IsAbsent w after
      → is_self w self ≡ true
      → Lags owner (before ++ w ∷ after) q watching
      → Lags owner (before ++ self ∷ after) (q ++ item update w ∷ []) watching
  updates-Lags before after w self q watching hs no_before no_after same v =
      let (hw, rest) = AllOwned-take_out owner before after w v.owned in
      let new = before ++ self ∷ after in
      let back = is_self_sym w self same in
      let self_before = IsAbsent-same self w before back no_before in
      let self_after = IsAbsent-same self w after back no_after in
      let away = IsAbsent-append w before after no_before no_after in
      let had = λ (p : Bytes). with_self before after w no_before no_after w p in
      let has = λ (p : Bytes). with_self before after w no_before no_after self p in
      let now_listed = λ (p : Bytes).
        ap (λ o. self_has o p) (self_listed before after w no_before no_after self same) in
      record {
        owned = AllOwned-insert owner before after self rest hs;
        queued = AllQueued-append owner q (item update w) v.queued (tt, hw);
        settles = λ p. elim (Bool-cases (member p self.spec.paths)) [
          | inl here ↦
              settles-said q (item update w) new p (watching p) (listed_path new p)
                (ground (arith, now_listed p, has p))
          | inr out ↦ elim (Bool-cases (member p w.spec.paths)) [
            | inl was ↦ settles-said q (item update w) new p (watching p) (listed_path new p) (
                ground (
                  arith,
                  now_listed p,
                  has p,
                  not_listed owner w (before ++ after) p hw rest away was,
                ))
            | inr never ↦
                settles-silent q (item update w) (before ++ w ∷ after) new p (watching p)
                  (listed_path new p) (ground (arith, now_listed p))
                  (λ x.
                    taken_out-SameSelf before after self self_before self_after p out x
                    ∙ sym (taken_out-SameSelf before after w no_before no_after p never x))
                  (v.settles p ∙ ground (arith, had p, has p))
          ]
        ];
      }

  pub handles-Lags :
      (x : EnqueueObj FsWatcher) (ms : List IpcMessage) (ls : List FsWatcher) (q : Queue)
      (watching : Bytes → Bool)
      → sync_watches {E = Unit} x.action (some x.obj) (ok ls) ≡ wrote ms
      → Lags owner ls (x ∷ q) watching
      → Lags owner ls q (hears ms watching)
  handles-Lags x ms ls q watching e v = record {
    owned = v.owned;
    queued = v.queued.1;
    settles = λ p.
        ap (now (verdict q ls p))
          (heard-word owner x.action x.obj ls ms watching p e v.queued.0.0 v.queued.0.1 v.owned)
        ∙ sym (now-or_else (verdict q ls p) (word x ls p) (watching p))
        ∙ v.settles p;
  }
