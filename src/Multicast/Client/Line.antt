-- ===== src/Multicast/Client/Line.antt =====
-- A client of k8s/pkg/multicast/tcpserver.go with its goroutines: callers of SendBytes, the reader
-- and other callers of shutdown, and writeLoop, interleaved in any order. writeLoop takes a frame
-- in one step and writes it in another; WriteFrame may fail at any time, and does so on a closed
-- connection. A shutdown is one step. SendBytes takes its two selects in two steps, so that a
-- shutdown may stand between.
use fs_lib.Prelude.{
  ℕ, suc, ◌≤◌, ◌<◌, List, [], ◌∷◌, ◌++◌, ◌≡◌, Bool, true, false, Option, none, some, Bytes, length,
}
use fs_lib.Multicast.Client.{Client, send_queue_depth, shutdown}

-- `checked` counts the callers of SendBytes that are behind its first select, `sent` has the frames
-- for which SendBytes returned nil, in the order of the queue; `running` is false once writeLoop
-- has returned.
pub record Line (H : Type 0) : Type 0 where
  pub client : Client H
  pub checked : ℕ
  pub hand : Option Bytes
  pub running : Bool
  pub sent : List Bytes

abbrev pub held : Option Bytes → List Bytes
held none = []
held (some b) = b ∷ []

pub data Step {H : Type 0} (close : H → H) (s : Line H) : Line H → Type 0 where
  checks : s.client.done ≡ false → Step close s (record s { checked = suc s.checked })
  queues :
      (b : Bytes) (n : ℕ)
      → s.checked ≡ suc n
      → length s.client.send_q < send_queue_depth
      → Step close s (record s {
        client = record s.client { send_q = s.client.send_q ++ b ∷ [] };
        checked = n;
        sent = s.sent ++ b ∷ [];
      })
  gives_up :
      (n : ℕ) → s.checked ≡ suc n → s.client.done ≡ true → Step close s (record s { checked = n })
  drops :
      (n : ℕ)
      → s.checked ≡ suc n
      → s.client.done ≡ false
      → send_queue_depth ≤ length s.client.send_q
      → Step close s (record s { client = shutdown close s.client; checked = n })
  takes :
      (b : Bytes) (q : List Bytes)
      → s.running ≡ true
      → s.hand ≡ none
      → s.client.send_q ≡ b ∷ q
      → Step close s (record s { client = record s.client { send_q = q }; hand = some b })
  writes :
      (b : Bytes)
      → s.hand ≡ some b
      → s.client.conn_open ≡ true
      → Step close s
          (record s { client = record s.client { wire = s.client.wire ++ b ∷ [] }; hand = none })
  write_fails :
      (b : Bytes)
      → s.hand ≡ some b
      → Step close s (record s { client = shutdown close s.client; hand = none; running = false })
  shuts : Step close s (record s { client = shutdown close s.client })
  stops : s.hand ≡ none → s.client.done ≡ true → Step close s (record s { running = false })

pub data Reach {H : Type 0} (close : H → H) (s : Line H) : Line H → Type 0 where
  here : Reach close s s
  next : {t u : Line H} → Reach close s t → Step close t u → Reach close s u

-- A client that was accepted, behind InitClient.
abbrev pub new_line : {H : Type 0} → Client H → Line H
new_line c = record { client = c; checked = 0; hand = none; running = true; sent = [] }
