-- ===== src/Daemon/Link/Handshake.antt =====
-- The end of the handshake.
use fs_lib.Prelude.{
  ℕ, zero, suc, ◌+◌, ◌*◌, ◌≤◌, ◌<◌, ◌≡◌, refl, inl, inr, ◌⊎◌, true, Bool-cases, Result-cases,
  Option, some, leb, arith,
}
use fs_lib.Daemon.Link.{
  Round, Shake, shaken, refused, timed_out, read_failed, handshake_timeout, handshake_sleep,
  is_refusal, handshake,
}

-- A round that found the client connected, among the first `n` from `i` on.
abbrev pub SawConnected : {E : Type 0} → (ℕ → Round E) → ℕ → ℕ → Type 0
SawConnected rounds i n =
    (j : ℕ) × (i ≤ j)
    × (j < i + n)
    × (((rounds j).connected ≡ true) ⊎ ((rounds j).connected_after ≡ true))

-- The outcome of a handshake with this fuel.
abbrev pub Ends : {E : Type 0} → (ℕ → Round E) → ℕ → ℕ → Option (Shake E) → Type 0
Ends rounds i n o = (s : Shake _) × (o ≡ some s) × (s ≡ shaken → SawConnected rounds i n)

later :
    {E : Type 0} (rounds : ℕ → Round E) (i n : ℕ) (o : Option (Shake E))
    → Ends rounds (i + 1) n o
    → Ends rounds i (suc n) o
later rounds i n o (s, e, saw) =
    (s, e, λ h. let (j, low, high, found) = saw h in (j, omega arith, omega arith, found))

one_round :
    {E : Type 0} (fuel : ℕ) (rounds : ℕ → Round E) (i elapsed : ℕ)
    → (elapsed < handshake_timeout
        → Ends rounds i
            (suc fuel)
            (handshake fuel rounds (i + 1) (elapsed + (rounds i).took + handshake_sleep)))
    → Ends rounds i (suc fuel) (handshake (suc fuel) rounds i elapsed)
unfolding handshake
one_round fuel rounds i elapsed rest = elim (Bool-cases (rounds i).connected) [
  | inl up ↦ rw up (shaken, refl, λ e. (i, omega arith, omega arith, inl up))
  | inr down ↦ elim (Bool-cases (leb handshake_timeout elapsed)) [
    | inl over ↦ elim (Bool-cases (rounds i).connected_after) [
      | inl late ↦
          rw (down, over, late) (shaken, refl, λ e. (i, omega arith, omega arith, inr late))
      | inr never ↦ rw (down, over, never) (timed_out, refl, λ e. absurd (cc))
    ]
    | inr in_time ↦ elim (Result-cases (rounds i).answer) [
      | inr (x, failed) ↦ rw (down, in_time, failed) (read_failed x, refl, λ e. absurd (cc))
      | inl (m, read) ↦ elim (Bool-cases (is_refusal m)) [
        | inl no_way ↦ rw (down, in_time, read, no_way) (refused, refl, λ e. absurd (cc))
        | inr go_on ↦ rw (down, in_time, read, go_on) (rest (ground arith))
      ]
    ]
  ]
]

handshake-Ends :
    {E : Type 0} (fuel : ℕ) (rounds : ℕ → Round E) (i elapsed : ℕ)
    → handshake_timeout ≤ elapsed + fuel * handshake_sleep
    → Ends rounds i (suc fuel) (handshake (suc fuel) rounds i elapsed)
handshake-Ends zero rounds i elapsed h =
    one_round zero rounds i elapsed (λ early. absurd (omega arith))
handshake-Ends (suc n) rounds i elapsed h = one_round (suc n) rounds i elapsed (λ early.
    later rounds i (suc n) _
      (handshake-Ends n rounds (i + 1) (elapsed + (rounds i).took + handshake_sleep) (omega arith)))

-- If every Read returns, the wait for the handshake ends within 21 rounds, whatever the IPC client
-- answers; and it ends with a client only if StatusCode was Connected in one of these rounds.
pub handshake_ends :
    {E : Type 0} (rounds : ℕ → Round E)
    → (s : Shake E) × (handshake 21 rounds 0 0 ≡ some s)
      × (s ≡ shaken
          → (j : ℕ) × (j < 21)
            × (((rounds j).connected ≡ true) ⊎ ((rounds j).connected_after ≡ true)))
handshake_ends rounds =
    let (s, e, saw) = handshake-Ends 20 rounds 0 0 (omega arith) in
    (s, e, λ h. let (j, low, high, found) = saw h in (j, omega arith, found))
