-- ===== src/Daemon/Sync/Unshared.antt =====
-- What the peer watches once the queue of Lag is empty.
use fs_lib.Prelude.{
  refl, false, Option, ◌||◌, if◌then◌else◌, List, [], ◌∷◌, ◌≡◌, sym, ap, ◌∙◌, Bool, true, false,
  none, some, arith, Bytes, ok, IsRangeOrder,
}
use fs_lib.Api.{FsWatcher}
use fs_lib.Daemon.Controller.{EnqueueObj}
use fs_lib.Daemon.Sync.{IpcMessage, wrote, clear_all, sync_watches}
use fs_lib.Daemon.Sync.Reconnect.{listed_path}
use fs_lib.Daemon.Sync.Follow.{now, heard, hears}
use fs_lib.Daemon.Sync.Course.{AllListedFit, heard-watch_all}
use fs_lib.Daemon.Sync.Lag.{
  Owner, Queue, Lag, starts, creates, deletes, updates, clears, lists, rewatches, handles, Phase,
  calm, clearing, writing, NotWriting, word, verdict,
}
use fs_lib.Daemon.Sync.Ownership.{AllOwned-AllListedFit, heard-word}
use fs_lib.Daemon.Sync.Lags.{Lags, creates-Lags, deletes-Lags, updates-Lags, handles-Lags}

now_below : (o : Option Bool) (a b : Bool) → (a ≡ true → b ≡ true) → now o a ≡ true → now o b ≡ true
now_below none a b h e = h e
now_below (some c) a b h e = e

now_listed :
    (listed watching : Bool)
    → now (if listed then some true else none) watching ≡ (watching || listed)
now_listed true watching = ground arith
now_listed false watching = ground arith

cleared : (watching : Bytes → Bool) (p : Bytes) → hears (clear_all ∷ []) watching p ≡ false
unfolding hears heard
cleared watching p = refl

module _ (owner : Owner) (order : List Bytes → List Bytes) (range : IsRangeOrder order) where
  -- What the peer watches, seen as if the reconnect had not begun, or its WATCH had been written
  abbrev PhaseIs : Phase → (Bytes → Bool) → (Bytes → Bool) → Type 0
  PhaseIs calm watching seen = (p : Bytes) → watching p ≡ seen p
  PhaseIs clearing watching seen = (p : Bytes) → watching p ≡ true → seen p ≡ true
  PhaseIs (writing old) watching seen =
      AllListedFit old × ((p : Bytes) → (watching p || listed_path old p) ≡ seen p)

  record Behind (ls : List FsWatcher) (q : Queue) (at : Phase) (watching : Bytes → Bool)
      : Type 0 where
    seen : Bytes → Bool
    lags : Lags owner ls q seen
    phase : PhaseIs at watching seen

  listed_union :
      (o : Option Bool) (watching seen listed : Bool)
      → (watching ≡ true → seen ≡ true)
      → now o seen ≡ listed
      → now o (watching || listed) ≡ listed
  listed_union none watching seen listed below e = ground (arith, e)
  listed_union (some b) watching seen listed below e = e

  lists-Behind :
      (ls : List FsWatcher) (q : Queue) (watching : Bytes → Bool)
      → Behind ls q clearing watching
      → Behind ls q (writing ls) watching
  lists-Behind ls q watching b = record {
    seen = λ p. watching p || listed_path ls p;
    lags = record {
      owned = b.lags.owned;
      queued = b.lags.queued;
      settles = λ p.
          listed_union (verdict q ls p) (watching p) (b.seen p) (listed_path ls p) (b.phase p)
            (b.lags.settles p);
    };
    phase = (AllOwned-AllListedFit owner ls b.lags.owned, λ p. refl);
  }

  handles-Behind :
      (x : EnqueueObj FsWatcher) (ms : List IpcMessage) (ls : List FsWatcher) (q : Queue)
      (at : Phase) (watching : Bytes → Bool)
      → NotWriting at
      → sync_watches {E = Unit} x.action (some x.obj) (ok ls) ≡ wrote ms
      → Behind ls (x ∷ q) at watching
      → Behind ls q at (hears ms watching)
  handles-Behind x ms ls q at watching free e b =
      let says = λ (over : Bytes → Bool) (p : Bytes).
        heard-word owner x.action x.obj ls ms over p e b.lags.queued.0.0 b.lags.queued.0.1
          b.lags.owned in
      record {
        seen = hears ms b.seen;
        lags = handles-Lags owner x ms ls q b.seen e b.lags;
        phase = moved at free b.phase says;
      }
    where
      moved :
          (at : Phase)
          → NotWriting at
          → PhaseIs at watching b.seen
          → ((over : Bytes → Bool) (p : Bytes) → hears ms over p ≡ now (word x ls p) (over p))
          → PhaseIs at (hears ms watching) (hears ms b.seen)
      moved calm free h says =
          λ p. says watching p ∙ ap (now (word x ls p)) (h p) ∙ sym (says b.seen p)
      moved clearing free h says = λ p on.
          says b.seen p
          ∙ now_below (word x ls p) (watching p) (b.seen p) (h p) (sym (says watching p) ∙ on)
      moved (writing old) free h says = elim free [ ]

  Lag-Behind :
      {ls : List FsWatcher} {q : Queue} {at : Phase} {watching : Bytes → Bool}
      → Lag owner order ls q at watching
      → Behind ls q at watching
  unfolding hears
  Lag-Behind (starts watching) = record {
    seen = λ p. false;
    lags = record { owned = tt; queued = tt; settles = λ p. refl };
    phase = λ p on. cc;
  }
  Lag-Behind (creates before after w {q} hw no_before no_after c) =
      let b = Lag-Behind c in
      record {
        seen = b.seen;
        lags = creates-Lags owner before after w q b.seen hw no_before no_after b.lags;
        phase = b.phase;
      }
  Lag-Behind (deletes before after w {q} no_before no_after c) =
      let b = Lag-Behind c in
      record {
        seen = b.seen;
        lags = deletes-Lags owner before after w q b.seen no_before no_after b.lags;
        phase = b.phase;
      }
  Lag-Behind (updates before after w self {q} hs no_before no_after same c) =
      let b = Lag-Behind c in
      record {
        seen = b.seen;
        lags = updates-Lags owner before after w self q b.seen hs no_before no_after same b.lags;
        phase = b.phase;
      }
  Lag-Behind (clears {watching = watching} c) =
      let b = Lag-Behind c in
      record {
        seen = b.seen;
        lags = b.lags;
        phase = λ p on. absurd (ground (arith, on, cleared watching p));
      }
  Lag-Behind (lists {ls} {q} {watching} c) = lists-Behind ls q watching (Lag-Behind c)
  Lag-Behind (rewatches old {watching = watching} c) =
      let b = Lag-Behind c in
      record {
        seen = b.seen;
        lags = b.lags;
        phase = λ p.
            ap (λ o. now o (watching p)) (heard-watch_all order old p range b.phase.0)
            ∙ now_listed (listed_path old p) (watching p)
            ∙ b.phase.1 p;
      }
  Lag-Behind (handles x ms {ls} {q} {at} {watching} free e c) =
      handles-Behind x ms ls q at watching free e (Lag-Behind c)

  -- While objects of different names list no path in common, then however far the handler of added,
  -- updated and deleted objects lags behind, and whenever JuiceFS is connected again, even if changes
  -- come and are handled, each in one step, while addWatchers runs, but none is handled between its
  -- list and its WATCH: once the queue is empty and addWatchers does not run, a peer that reads the
  -- messages by their fields watches exactly the paths that some object lists, if all paths fit their
  -- fields and no handler has panicked.
  pub unshared_paths_follow :
      {ls : List FsWatcher} {watching : Bytes → Bool}
      → Lag owner order ls [] calm watching
      → (p : Bytes) → watching p ≡ listed_path ls p
  unshared_paths_follow c p = let b = Lag-Behind c in b.phase p ∙ b.lags.settles p
