-- ===== src/Ipc/Connect.antt =====
-- NewIpcConn of jfsnotify/ipc.go, over what the IPC client answers. Its wait has no timer, other
-- than that of k8s/pkg/ipc/client.go: `none` is the end of the fuel.
use fs_lib.Prelude.{
  ℕ, zero, suc, ◌+◌, ◌≡◌, refl, Bool, false, Bool-cases, Result-cases, Option, none, some, inl, inr,
  if◌then◌else◌, Result, ok, err, ◌==◌, pos, negsuc,
}
use fs_lib.Ipc.{Message}

-- One test of the loop, and what Read returns in its body.
pub record Round (E : Type 0) : Type 0 where
  pub connected : Bool
  pub answer : Result E Message

pub data Opened (E : Type 0) : Type 0 where
  opened : Opened E
  refused : Opened E
  failed : E → Opened E

-- m.MsgType == -2
unfoldable pub refuses : Message → Bool
refuses m = elim m.msg_type [ pos n ↦ false | negsuc n ↦ n == 1 ]

unfoldable pub wait_connected : {E : Type 0} → ℕ → (ℕ → Round E) → ℕ → Option (Opened E)
unfolding refuses
wait_connected zero rounds i = none
wait_connected (suc fuel) rounds i =
    let rest = wait_connected fuel rounds (i + 1) in
    if (rounds i).connected then some opened else elim (rounds i).answer [
      | err e ↦ some (failed e)
      | ok m ↦ if refuses m then some refused else rest
    ]

-- NewIpcConn, over the error of StartClient
unfoldable pub new_ipc_conn : {E : Type 0} → ℕ → Option E → (ℕ → Round E) → Option (Opened E)
new_ipc_conn fuel (some e) rounds = some (failed e)
new_ipc_conn fuel none rounds = wait_connected fuel rounds 0

-- What a round decides, if it does.
abbrev pub decides : {E : Type 0} → Round E → Option (Opened E)
decides r =
    if r.connected
    then some opened
    else elim r.answer [ err e ↦ some (failed e) | ok m ↦ if refuses m then some refused else none ]

-- As long as no round decides, the wait goes on, however many there are.
pub wait_connected_undecided :
    {E : Type 0} (fuel : ℕ) (rounds : ℕ → Round E) (i : ℕ)
    → ((j : ℕ) → decides (rounds j) ≡ none)
    → wait_connected fuel rounds i ≡ none
unfolding wait_connected
wait_connected_undecided zero rounds i h = refl
wait_connected_undecided (suc fuel) rounds i h =
    let hi = h i in
    elim (Bool-cases (rounds i).connected) [
      | inl up ↦ absurd (some_none (rw up at hi))
      | inr down ↦ elim (Result-cases (rounds i).answer) [
        | inr (e, broken) ↦ absurd (some_none (rw (down, broken) at hi))
        | inl (m, read) ↦ elim (Bool-cases (refuses m)) [
          | inl no_way ↦ absurd (some_none (rw (down, read, no_way) at hi))
          | inr go_on ↦ rw (down, read, go_on) (wait_connected_undecided fuel rounds (i + 1) h)
        ]
      ]
    ]
  where
    some_none : {A : Type 0} {x : A} → some x ≡ none → ⊥
    some_none e = cc
