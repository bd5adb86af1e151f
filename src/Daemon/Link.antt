-- ===== src/Daemon/Link.antt =====
-- JFSClient of k8s/pkg/ipc/client.go: the handshake of a new IPC client, the goroutine that reads
-- from it and reconnects, and Write. The IPC client of golang-ipc is a parameter: the answers of
-- StartClient, StatusCode and Read. Times are in milliseconds.
pub mod Handshake
pub mod Effects
pub mod Race
use fs_lib.Prelude.{
  ℕ, zero, suc, ◌+◌, List, [], ◌∷◌, ◌++◌, Bool, true, false, not, ◌==◌, Option, none, some, leb,
  if◌then◌else◌, Result, ok, err, ℤ, pos, negsuc,
}
use fs_lib.Ipc.{Message, is_broken}

-- One round of the loop that waits for the handshake: whether StatusCode is Connected at its head,
-- and behind it if the loop breaks there; what Read returns, and how long it takes.
pub record Round (E : Type 0) : Type 0 where
  pub connected : Bool
  pub connected_after : Bool
  pub answer : Result E Message
  pub took : ℕ

pub data Shake (E : Type 0) : Type 0 where
  shaken : Shake E
  refused : Shake E
  timed_out : Shake E
  read_failed : E → Shake E

-- The timer, and the sleep of a round
abbrev pub handshake_timeout : ℕ
handshake_timeout = 2000

abbrev pub handshake_sleep : ℕ
handshake_sleep = 100

-- m.MsgType == -2
unfoldable pub is_refusal : Message → Bool
is_refusal m = elim m.msg_type [ pos n ↦ false | negsuc n ↦ n == 1 ]

-- The loop and the test behind it, from a round on. The timer fires when its time is over; `none`
-- is the end of the fuel.
unfoldable pub handshake : {E : Type 0} → ℕ → (ℕ → Round E) → ℕ → ℕ → Option (Shake E)
unfolding is_refusal
handshake zero rounds i elapsed = none
handshake (suc fuel) rounds i elapsed =
    let r = rounds i in
    let rest = handshake fuel rounds (i + 1) (elapsed + r.took + handshake_sleep) in
    if r.connected
    then some shaken
    else if leb handshake_timeout elapsed
    then some (if r.connected_after then shaken else timed_out)
    else elim r.answer [
      | err e ↦ some (read_failed e)
      | ok m ↦ if is_refusal m then some refused else rest
    ]

-- Where the goroutine stands: at the select of its loop, in the loop that dials, or at Read.
pub data Pc : Type 0 where
  selects dials reads stopped : Pc

-- `client` is the IPC client in use, `alive` has those that StartClient started and nothing closed.
pub record Link : Type 0 where
  pub pc : Pc
  pub client : Option ℕ
  pub next_id : ℕ
  pub alive : List ℕ

-- What a step meets: whether the context is done, whether StartClient fails, how the handshake
-- ends, and what Read returns.
pub record Env (E : Type 0) : Type 0 where
  pub cancelled : Bool
  pub start_fails : Bool
  pub shake : Shake E
  pub answer : Result E Message

pub data Effect : Type 0 where
  connects : Effect
  calls_back : Message → Effect
  closes : ℕ → Effect

abbrev pub new_link : Link
new_link = record { pc = selects; client = none; next_id = 0; alive = [] }

abbrev pub is_none : Option ℕ → Bool
is_none none = true
is_none (some i) = false

-- One test of `for client.client == nil`, and its body
unfoldable pub dial : {E : Type 0} → Bool → Shake E → Link → Link × List Effect
dial start_fails shaken l = if start_fails then (l, []) else (
  record l {
    pc = reads;
    client = some l.next_id;
    next_id = l.next_id + 1;
    alive = l.next_id ∷ l.alive;
  },
  connects ∷ [],
)
dial start_fails _ l =
    if start_fails
    then (l, [])
    else (record l { next_id = l.next_id + 1; alive = l.next_id ∷ l.alive }, [])

unfoldable pub without_id : ℕ → List ℕ → List ℕ
without_id i [] = []
without_id i (j ∷ js) = let rest = without_id i js in if j == i then rest else j ∷ rest

-- clear
unfoldable pub clear_client : Option ℕ → Link → Link × List Effect
unfolding without_id
clear_client none l = (record l { pc = selects }, [])
clear_client (some i) l =
    (record l { pc = selects; client = none; alive = without_id i l.alive }, closes i ∷ [])

abbrev pub is_positive : ℤ → Bool
is_positive (pos zero) = false
is_positive (pos (suc n)) = true
is_positive (negsuc n) = false

-- What follows Read
unfoldable pub after_read : {E : Type 0} → Result E Message → Link → Link × List Effect
unfolding clear_client
after_read (err e) l = clear_client l.client l
after_read (ok m) l =
    if is_broken m
    then clear_client l.client l
    else (record l { pc = selects }, if is_positive m.msg_type then calls_back m ∷ [] else [])

unfoldable pub step_at : {E : Type 0} → Pc → Env E → Link → Link × List Effect
unfolding dial after_read
step_at selects env l =
    if env.cancelled
    then (record l { pc = stopped }, [])
    else (record l { pc = if is_none l.client then dials else reads }, [])
step_at dials env l = dial env.start_fails env.shake l
step_at reads env l = after_read env.answer l
step_at stopped env l = (l, [])

-- A step of the goroutine of NewJFSClient
unfoldable pub step : {E : Type 0} → Env E → Link → Link × List Effect
unfolding step_at
step env l = step_at l.pc env l

unfoldable pub run : {E : Type 0} → List (Env E) → Link → Link × List Effect
unfolding step
run [] l = (l, [])
run (env ∷ envs) l =
    let (l1, effects) = step env l in let (l2, later) = run envs l1 in (l2, effects ++ later)

-- What a Write comes to: the error of a nil client, a write on the client, or one on nil.
pub data Written : Type 0 where
  not_connected : Written
  passed_on : ℕ → Written
  nil_client : Written

-- c.client == nil
unfoldable pub write_checks : Link → Bool
write_checks l = not (is_none l.client)

-- c.client.Write
unfoldable pub write_calls : Link → Written
write_calls l = elim l.client [ none ↦ nil_client | some i ↦ passed_on i ]

-- Write, with nothing between its two reads of c.client
unfoldable pub write_message : Link → Written
unfolding write_checks write_calls
write_message l = if write_checks l then write_calls l else not_connected
