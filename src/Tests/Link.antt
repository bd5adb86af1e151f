-- ===== src/Tests/Link.antt =====
-- The daemon's connection to JuiceFS, and what JuiceFS watches over its messages.
use fs_lib.Prelude.{
  subst, if◌then◌else◌, equal_iff, ℕ, zero, suc, ◌<◌, List, [], ◌∷◌, ◌++◌, ◌≡◌, refl, ◌⊎◌, Bool,
  true, false, some, arith, Bytes, codes, member, Result, ok, err, pos, id-IsRangeOrder, equal,
}
use fs_lib.Api.{FsWatcher, empty_status}
use fs_lib.Ipc.{Message}
use fs_lib.Wire.Codec.{trim, Fits}
use fs_lib.Daemon.Controller.{update, add}
use fs_lib.Daemon.Link.{Round, Shake, shaken, timed_out, handshake, Env, new_link, run}
use fs_lib.Daemon.Link.Handshake.{handshake_ends}
use fs_lib.Daemon.Link.Effects.{Follows, is_open, run-Follows}
use fs_lib.Daemon.Sync.{clear_all, watch_all, add_watchers, sync_watches, sync_action, scan}
use fs_lib.Daemon.Sync.Reconnect.{listed_path}
use fs_lib.Daemon.Sync.Follow.{hears}
use fs_lib.Daemon.Sync.Changes.{synced, added}
use fs_lib.Daemon.Sync.Course.{Course, connected, changed, juicefs_follows}
use fs_lib.Daemon.Sync.Lag.{
  Owner, Owned, Lag, item, starts, creates, updates, clears, lists, rewatches, calm, handles,
}
use fs_lib.Daemon.Sync.Unshared.{unshared_paths_follow}
use fs_lib.Daemon.Sync.Shared.{shared_path_missed}

abbrev hello : Message
hello = record { msg_type = pos 3; reconnecting = false; content = codes "x" }

-- Connected in the third round.
abbrev rounds : ℕ → Round Unit
rounds zero = record { connected = false; connected_after = false; answer = ok hello; took = 5 }
rounds (suc zero) = record {
  connected = false;
  connected_after = false;
  answer = ok hello;
  took = 5;
}
rounds (suc (suc n)) = record {
  connected = true;
  connected_after = true;
  answer = ok hello;
  took = 5;
}

handshake_ends_example :
    (s : Shake Unit) × (handshake 21 rounds 0 0 ≡ some s)
    × (s ≡ shaken
        → (j : ℕ) × (j < 21)
          × (((rounds j).connected ≡ true) ⊎ ((rounds j).connected_after ≡ true)))
handshake_ends_example = handshake_ends rounds

abbrev meets : Shake Unit → Result Unit Message → Env Unit
meets shake answer = record {
  cancelled = false;
  start_fails = false;
  shake = shake;
  answer = answer;
}

abbrev envs : List (Env Unit)
envs =
    meets shaken (ok hello)
    ∷ meets timed_out (ok hello)
    ∷ meets shaken (ok hello)
    ∷ meets shaken (ok hello)
    ∷ meets shaken (ok hello)
    ∷ meets shaken (err tt)
    ∷ []

run-Follows_example : Follows false (run envs new_link).1 (is_open (run envs new_link).0)
run-Follows_example = run-Follows envs

abbrev object : Bytes → List Bytes → FsWatcher
object name paths = record {
  name = name;
  namespace = codes "ns";
  spec = record { description = []; pod = codes "p"; container = codes "c"; paths = paths };
  status = empty_status;
}

abbrev one : FsWatcher
one = object (codes "p-c-w") (codes "/a" ∷ [])

abbrev two : FsWatcher
two = object (codes "p-c-x") (codes "/a" ∷ [])

a-Fits : Fits 255 (codes "/a")
unfolding trim
a-Fits = record { short = omega arith; clean = refl }

abbrev at_start : Bytes → Bool
at_start = hears (add_watchers {E = Unit} (λ l. l) (ok (two ∷ []))) (λ p. true)

course : Course (λ l. l) (one ∷ two ∷ []) (hears (synced add one (one ∷ two ∷ [])) at_start)
unfolding equal
course =
    changed (one ∷ two ∷ []) (synced add one (one ∷ two ∷ []))
      (connected (two ∷ []) (λ p. true) ((a-Fits, tt), tt))
      (added [] (two ∷ []) one (a-Fits, tt) tt (refl, tt) refl refl refl)

juicefs_follows_example :
    hears (synced add one (one ∷ two ∷ [])) at_start (codes "/a")
    ≡ listed_path (one ∷ two ∷ []) (codes "/a")
juicefs_follows_example = juicefs_follows (λ l. l) id-IsRangeOrder course (codes "/a")

shared_path_missed_example :
    (listed_path (one ∷ two ∷ []) (codes "/a") ≡ true)
    × (hears
          (synced add one (one ∷ two ∷ []) ++ synced add two (one ∷ two ∷ []))
          (λ p. false)
          (codes "/a")
        ≡ false)
unfolding equal member
shared_path_missed_example =
    shared_path_missed one two [] (codes "/a") (λ p. false) refl refl (a-Fits, tt) (a-Fits, tt) refl
      refl refl

abbrev three : FsWatcher
three = object (codes "p-c-x") (codes "/b" ∷ [])

b-Fits : Fits 255 (codes "/b")
unfolding trim
b-Fits = record { short = omega arith; clean = refl }

abbrev owner : Owner
owner p = (codes "ns", if equal (codes "/b") p then codes "p-c-x" else codes "p-c-w")

one-Owned : Owned owner one
unfolding member equal
one-Owned = (
  (a-Fits, tt),
  λ p h.
      subst (λ q. owner q ≡ (codes "ns", codes "p-c-w"))
        ((equal_iff (codes "/a") p).0 (ground arith)) refl,
)

three-Owned : Owned owner three
unfolding member equal
three-Owned = (
  (b-Fits, tt),
  λ p h.
      subst (λ q. owner q ≡ (codes "ns", codes "p-c-x"))
        ((equal_iff (codes "/b") p).0 (ground arith)) refl,
)

abbrev both : List FsWatcher
both = one ∷ three ∷ []

abbrev from_start : Bytes → Bool
from_start = hears (watch_all (λ l. l) [] ∷ []) (hears (clear_all ∷ []) (λ p. true))

-- The first object before it is updated.
abbrev early : FsWatcher
early = object (codes "p-c-w") (codes "/c" ∷ [])

c-Fits : Fits 255 (codes "/c")
unfolding trim
c-Fits = record { short = omega arith; clean = refl }

-- JuiceFS is connected again behind the first change, and the second one is handled between the
-- CLEAR and the list.
abbrev at_clear : Bytes → Bool
at_clear = hears (clear_all ∷ []) (hears (synced add early both) from_start)

abbrev at_update : Bytes → Bool
at_update = hears (synced update early both) at_clear

abbrev at_end : Bytes → Bool
at_end = hears (synced add three both) (hears (watch_all (λ l. l) both ∷ []) at_update)

early-Owned : Owned owner early
unfolding member equal
early-Owned = (
  (c-Fits, tt),
  λ p h.
      subst (λ q. owner q ≡ (codes "ns", codes "p-c-w"))
        ((equal_iff (codes "/c") p).0 (ground arith)) refl,
)

-- Both are created, and one of them is updated, before the first is handled.
behind : Lag owner (λ l. l) both [] calm at_end
unfolding equal sync_watches sync_action scan
behind = handles (item add three) (synced add three both) tt refl (
    rewatches both (
      lists (
        handles (item update early) (synced update early both) tt refl (
          clears (
            handles (item add early) (synced add early both) tt refl (
              creates (one ∷ []) [] three three-Owned (refl, tt) tt
                (updates [] [] early one one-Owned tt tt refl (
                  creates [] [] early early-Owned tt tt
                    (rewatches [] (lists (starts (λ p. true))))))))))))

unshared_paths_follow_example : at_end (codes "/b") ≡ listed_path both (codes "/b")
unshared_paths_follow_example =
    unshared_paths_follow owner (λ l. l) id-IsRangeOrder behind (codes "/b")
