-- ===== src/Multicast/Accept.antt =====
-- The accept loop of server.Listen in k8s/pkg/multicast/tcpserver.go, over the answers of Accept.
-- Times are in milliseconds.
use native.Mathlib.Nat.{pow-suc}
use fs_lib.Prelude.{
  ℕ, zero, suc, ◌+◌, ◌*◌, ◌^◌, ◌≤◌, min, List, [], ◌∷◌, ◌++◌, ◌≡◌, ap, ◌∙◌, ltb, if◌then◌else◌,
  arith, replicate,
}

-- minAcceptBackoff, maxAcceptBackoff
abbrev pub min_accept_backoff : ℕ
min_accept_backoff = 10

abbrev pub max_accept_backoff : ℕ
max_accept_backoff = 1000

-- An answer of Accept: a connection; an error, and whether the context is done by the end of the
-- wait for it; the closed listener.
pub data Answer : Type 0 where
  connection : Answer
  failure : Answer
  failure_cancelled : Answer
  listener_closed : Answer

-- What the loop does: it waits, or starts a client.
pub data Action : Type 0 where
  wait : ℕ → Action
  start_client : Action

-- if backoff *= 2; backoff > maxAcceptBackoff { backoff = maxAcceptBackoff }
unfoldable pub next_backoff : ℕ → ℕ
next_backoff backoff =
    if ltb max_accept_backoff (backoff * 2) then max_accept_backoff else backoff * 2

-- The loop from the given backoff, up to its return or the end of the answers.
unfoldable pub accept_loop : ℕ → List Answer → List Action
unfolding next_backoff
accept_loop backoff [] = []
accept_loop backoff (connection ∷ rest) = start_client ∷ accept_loop min_accept_backoff rest
accept_loop backoff (failure ∷ rest) = wait backoff ∷ accept_loop (next_backoff backoff) rest
accept_loop backoff (failure_cancelled ∷ rest) = wait backoff ∷ []
accept_loop backoff (listener_closed ∷ rest) = []

-- Listen
unfoldable pub listen : List Answer → List Action
listen = accept_loop min_accept_backoff

abbrev pub AllWaits : (ℕ → Type 0) → List Action → Type 0
AllWaits P [] = Unit
AllWaits P (wait n ∷ rest) = P n × AllWaits P rest
AllWaits P (start_client ∷ rest) = AllWaits P rest

abbrev pub InBounds : ℕ → Type 0
InBounds n = (min_accept_backoff ≤ n) × (n ≤ max_accept_backoff)

accept_loop-InBounds :
    (answers : List Answer) (backoff : ℕ)
    → InBounds backoff
    → AllWaits InBounds (accept_loop backoff answers)
unfolding accept_loop
accept_loop-InBounds [] backoff h = tt
accept_loop-InBounds (connection ∷ rest) backoff h =
    accept_loop-InBounds rest min_accept_backoff (omega arith)
accept_loop-InBounds (failure ∷ rest) backoff h =
    (h, accept_loop-InBounds rest (next_backoff backoff) (ground arith))
accept_loop-InBounds (failure_cancelled ∷ rest) backoff h = (h, tt)
accept_loop-InBounds (listener_closed ∷ rest) backoff h = tt

-- No wait of the accept loop is shorter than 10 ms or longer than a second.
pub listen-InBounds : (answers : List Answer) → AllWaits InBounds (listen answers)
unfolding listen
listen-InBounds answers = accept_loop-InBounds answers min_accept_backoff (omega arith)

-- The wait after `n` failures in a row: 10 ms doubled n times, a second at most.
abbrev pub backoff_after : ℕ → ℕ
backoff_after n = min (min_accept_backoff * 2 ^ n) max_accept_backoff

abbrev pub waits : ℕ → ℕ → List Action
waits k zero = []
waits k (suc n) = wait (backoff_after k) ∷ waits (suc k) n

next_backoff-after : (n : ℕ) → next_backoff (backoff_after n) ≡ backoff_after (suc n)
unfolding next_backoff
next_backoff-after n = ground (arith, pow-suc 2 n)

accept_loop-failures :
    (k n : ℕ) (rest : List Answer)
    → accept_loop (backoff_after k) (replicate n failure ++ rest)
      ≡ waits k n ++ accept_loop (backoff_after (k + n)) rest
unfolding accept_loop replicate
accept_loop-failures k zero rest =
    ap (λ (j : ℕ). accept_loop (backoff_after j) rest) {x = k} {y = k + 0} (omega arith)
accept_loop-failures k (suc n) rest =
    ap (λ b. wait (backoff_after k) ∷ accept_loop b (replicate n failure ++ rest))
      (next_backoff-after k)
    ∙ ap (◌∷◌ (wait (backoff_after k))) (accept_loop-failures (suc k) n rest)
    ∙ ap (λ (j : ℕ). waits k (suc n) ++ accept_loop (backoff_after j) rest) {x = suc k + n}
        {y = k + suc n} (omega arith)

-- After a connection, or at the start, n failures in a row are waited out for 10 ms doubled up
-- to a second at most, whatever came before the connection; then a connection starts a client
-- and the next failure waits for 10 ms again.
pub accept_loop-backoff :
    (backoff n : ℕ) (rest : List Answer)
    → accept_loop backoff (connection ∷ (replicate n failure ++ connection ∷ rest))
      ≡ start_client ∷ (waits 0 n ++ start_client ∷ accept_loop min_accept_backoff rest)
unfolding accept_loop
accept_loop-backoff backoff n rest =
    ap (◌∷◌ start_client) (accept_loop-failures 0 n (connection ∷ rest))
