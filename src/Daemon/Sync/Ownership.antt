-- ===== src/Daemon/Sync/Ownership.antt =====
-- Objects that own their paths, and what a handled item of such an object says.
use fs_lib.Prelude.{
  Option, none, some, Option-cases, subst, ok, List, [], ◌∷◌, ◌++◌, ◌≡◌, refl, sym, ap, ◌∙◌, Bool,
  true, false, inl, inr, Bool-cases, arith, Bytes, equal_iff, member,
}
use fs_lib.Api.{FsWatcher}
use fs_lib.Wire.Message.{msg_watch, msg_unwatch}
use fs_lib.Daemon.Controller.{Action, unknown, add, update, delete, EnqueueObj}
use fs_lib.Daemon.Sync.{IpcMessage, Synced, wrote, panics, is_self, sync_watches}
use fs_lib.Daemon.Sync.Paths.{
  watched_elsewhere, listed_self, sync_watches-add_delete, sync_watches-update,
  sync_watches-update_missing,
}
use fs_lib.Daemon.Sync.Reconnect.{listed_path}
use fs_lib.Daemon.Sync.Follow.{
  now, hears, messages, heard-Names, own-AllFit, IsAbsent, is_self_refl,
}
use fs_lib.Daemon.Sync.Course.{AllListedFit}
use fs_lib.Daemon.Sync.Lag.{Owner, Owned, Queue, self_has, word_of}

abbrev pub IsHandled : Action → Type 0
IsHandled unknown = ⊥
IsHandled _ = Unit

-- Objects of one name and namespace.
pub is_self_trans :
    (a b c : FsWatcher) → is_self a b ≡ true → is_self b c ≡ true → is_self a c ≡ true
is_self_trans a b c h k = ground (
  arith,
  equal_iff b.name a.name,
  equal_iff c.name b.name,
  equal_iff c.name a.name,
  equal_iff b.namespace a.namespace,
  equal_iff c.namespace b.namespace,
  equal_iff c.namespace a.namespace,
)

pub is_self_sym : (a b : FsWatcher) → is_self a b ≡ true → is_self b a ≡ true
is_self_sym a b h = ground (
  arith,
  equal_iff b.name a.name,
  equal_iff a.name b.name,
  equal_iff b.namespace a.namespace,
  equal_iff a.namespace b.namespace,
)

pub IsAbsent-same :
    (x w : FsWatcher) (ls : List FsWatcher) → is_self x w ≡ true → IsAbsent w ls → IsAbsent x ls
IsAbsent-same x w [] same h = tt
IsAbsent-same x w (l ∷ ls) same h = (
  elim (Bool-cases (is_self x l)) [
    | inl mine ↦ absurd (true_false (sym (is_self_trans w x l (is_self_sym x w same) mine) ∙ h.0))
    | inr other ↦ other
  ],
  IsAbsent-same x w ls same h.1,
)
  where
    true_false : true ≡ false → ⊥
    true_false e = cc

pub IsAbsent-append :
    (w : FsWatcher) (xs ys : List FsWatcher) → IsAbsent w xs → IsAbsent w ys → IsAbsent w (xs ++ ys)
IsAbsent-append w [] ys hx hy = hy
IsAbsent-append w (x ∷ xs) ys hx hy = (hx.0, IsAbsent-append w xs ys hx.1 hy)

module _ (owner : Owner) where
  abbrev pub AllOwned : List FsWatcher → Type 0
  AllOwned [] = Unit
  AllOwned (w ∷ ws) = Owned owner w × AllOwned ws

  abbrev pub AllQueued : Queue → Type 0
  AllQueued [] = Unit
  AllQueued (x ∷ xs) = (IsHandled x.action × Owned owner x.obj) × AllQueued xs

  pub AllQueued-append :
      (xs : Queue) (x : EnqueueObj FsWatcher)
      → AllQueued xs
      → IsHandled x.action × Owned owner x.obj
      → AllQueued (xs ++ x ∷ [])
  AllQueued-append [] x h v = (v, tt)
  AllQueued-append (y ∷ ys) x h v = (h.0, AllQueued-append ys x h.1 v)

  pub AllOwned-insert :
      (before after : List FsWatcher) (w : FsWatcher)
      → AllOwned (before ++ after)
      → Owned owner w
      → AllOwned (before ++ w ∷ after)
  AllOwned-insert [] after w h v = (v, h)
  AllOwned-insert (b ∷ bs) after w h v = (h.0, AllOwned-insert bs after w h.1 v)

  pub AllOwned-take_out :
      (before after : List FsWatcher) (w : FsWatcher)
      → AllOwned (before ++ w ∷ after)
      → Owned owner w × AllOwned (before ++ after)
  AllOwned-take_out [] after w h = h
  AllOwned-take_out (b ∷ bs) after w h =
      let (own, rest) = AllOwned-take_out bs after w h.1 in (own, (h.0, rest))

  pub AllOwned-AllListedFit : (ws : List FsWatcher) → AllOwned ws → AllListedFit ws
  AllOwned-AllListedFit [] h = tt
  AllOwned-AllListedFit (w ∷ ws) h = (h.0.0, AllOwned-AllListedFit ws h.1)

  same_owner :
      (w l : FsWatcher) (p : Bytes)
      → Owned owner w
      → Owned owner l
      → member p w.spec.paths ≡ true
      → member p l.spec.paths ≡ true
      → is_self w l ≡ true
  same_owner w l p hw hl in_w in_l =
      let same = sym (hl.1 p in_l) ∙ hw.1 p in_w in
      ground (
        arith,
        (equal_iff l.name w.name).1 (ap (λ (o : Bytes × Bytes). o.1) same),
        (equal_iff l.namespace w.namespace).1 (ap (λ (o : Bytes × Bytes). o.0) same),
      )

  not_elsewhere :
      (w source : FsWatcher) (ls : List FsWatcher) (p : Bytes)
      → is_self w source ≡ true
      → Owned owner source
      → AllOwned ls
      → member p source.spec.paths ≡ true
      → watched_elsewhere w ls p ≡ false
  not_elsewhere w source [] p same hs h in_s = refl
  not_elsewhere w source (l ∷ ls) p same hs h in_s = elim (Bool-cases (member p l.spec.paths)) [
    | inl in_l ↦ ground (
      arith,
      is_self_trans w source l same (same_owner source l p hs h.0 in_s in_l),
      not_elsewhere w source ls p same hs h.1 in_s,
    )
    | inr out ↦ ground (arith, not_elsewhere w source ls p same hs h.1 in_s)
  ]

  pub not_listed :
      (w : FsWatcher) (ls : List FsWatcher) (p : Bytes)
      → Owned owner w
      → AllOwned ls
      → IsAbsent w ls
      → member p w.spec.paths ≡ true
      → listed_path ls p ≡ false
  not_listed w [] p hw h away in_w = refl
  not_listed w (l ∷ ls) p hw h away in_w = elim (Bool-cases (member p l.spec.paths)) [
    | inl in_l ↦ ground (arith, same_owner w l p hw h.0 in_w in_l)
    | inr out ↦ ground (arith, not_listed w ls p hw h.1 away.1 in_w)
  ]

  pub listed_self-Owned :
      (w s : FsWatcher) (ls : List FsWatcher) (o : Option FsWatcher)
      → AllOwned ls
      → ((u : FsWatcher) → o ≡ some u → (is_self w u ≡ true) × Owned owner u)
      → listed_self w ls o ≡ some s
      → (is_self w s ≡ true) × Owned owner s
  listed_self-Owned w s [] o h ho e = ho s e
  listed_self-Owned w s (l ∷ ls) o h ho e = elim (Bool-cases (is_self w l)) [
    | inl same ↦
        listed_self-Owned w s ls (some l) h.1
          (λ u eq.
            subst (λ v. (is_self w v ≡ true) × Owned owner v) (some_injective l u eq) (same, h.0))
          (rw same at e)
    | inr other ↦ listed_self-Owned w s ls o h.1 ho (rw other at e)
  ]
    where
      some_injective : (a b : FsWatcher) → some a ≡ some b → a ≡ b
      some_injective a b eq = cc

  -- A handled item says of each path what it means, since no other object lists its paths.
  pub heard-word :
      (a : Action) (w : FsWatcher) (ls : List FsWatcher) (ms : List IpcMessage)
      (watching : Bytes → Bool) (p : Bytes)
      → sync_watches {E = Unit} a (some w) (ok ls) ≡ wrote ms
      → IsHandled a
      → Owned owner w
      → AllOwned ls
      → hears ms watching p ≡ now (word_of a w ls p) (watching p)
  unfolding hears
  heard-word add w ls ms watching p e known hw h =
      let (paths, watched, _, wrote_add, _, names, _, own) =
        sync_watches-add_delete {E = Unit} w ls in
      ap (λ r. hears (messages r) watching p) (sym e ∙ wrote_add)
      ∙ ground (
        arith,
        heard-Names watched msg_watch w paths p names (own-AllFit w w ls paths hw.0 own),
        own p,
        not_elsewhere w w ls p (is_self_refl w) hw h,
      )
  heard-word delete w ls ms watching p e known hw h =
      let (paths, _, unwatched, _, wrote_delete, _, names, own) =
        sync_watches-add_delete {E = Unit} w ls in
      ap (λ r. hears (messages r) watching p) (sym e ∙ wrote_delete)
      ∙ ground (
        arith,
        heard-Names unwatched msg_unwatch w paths p names (own-AllFit w w ls paths hw.0 own),
        own p,
        not_elsewhere w w ls p (is_self_refl w) hw h,
      )
  heard-word update w ls ms watching p e known hw h = elim (Option-cases (listed_self w ls none)) [
    | inl gone ↦ absurd (no_panic ms (sym (sync_watches-update_missing w ls gone) ∙ e))
    | inr (s, found) ↦
        let (same, hs) = listed_self-Owned w s ls none h (λ u eq. cc) found in
        let (old, new, unwatched, watched, wrote_both, names_old, names_new, own_old, own_new) =
          sync_watches-update {E = Unit} w s ls found in
        ap (λ r. hears (messages r) watching p) (sym e ∙ wrote_both)
        ∙ ground (
          arith,
          heard-Names unwatched msg_unwatch w old p names_old (own-AllFit w w ls old hw.0 own_old),
          heard-Names watched msg_watch s new p names_new (own-AllFit w s ls new hs.0 own_new),
          own_old p,
          own_new p,
          not_elsewhere w w ls p (is_self_refl w) hw h,
          not_elsewhere w s ls p same hs h,
          ap (λ o. self_has o p) found,
        )
  ]
    where
      no_panic : (ms : List IpcMessage) → ◌≡◌ {A = Synced Unit} panics (wrote ms) → ⊥
      no_panic ms e = cc
  heard-word unknown w ls ms watching p e known hw h = absurd known
