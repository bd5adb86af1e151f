-- ===== src/Jfs/Readers/Repeats.antt =====
-- One failed write and the connections after it: each is closed because of the one before.
use fs_lib.Prelude.{
  ℕ, zero, suc, ◌+◌, List, [], ◌∷◌, ◌++◌, ◌≡◌, ◌≢◌, refl, ap, true, false, none, some, arith, Bytes,
  length, length-append,
}
use fs_lib.Jfs.Chan.{Outcome, done, send_to, ◌>>=◌}
use fs_lib.Jfs.Watcher.{Watcher, send, other_error, sync_write}
use fs_lib.Jfs.Connection.{
  push_task, signal_reconnect, after_write, run_task, run_tasks, connect, disconnect,
}
use fs_lib.Jfs.Readers.{
  reads, WriterAt, tests, takes, tells, Pump, read_fails, write_frame, after_send, left_queue, Step,
  dials, wakes, enters, breaks, sends,
}
use fs_lib.Jfs.Readers.Leftover.{enter_up}

-- The step is no failure of the current connection.
pub Spares : (p : Pump) {q : Pump} → Step p q → Type 0
Spares p (dials answer down on h) = answer ≡ none
Spares p (breaks before after rs id e at h) = p.watcher.connected ≡ true → id ≢ p.dialled
Spares p (sends before after answer b q at e h) = answer ≡ none
Spares p _ = Unit

pub data Unharmed (p : Pump) : Pump → Type 0 where
  begins : Unharmed p p
  goes_on : {q r : Pump} → Unharmed p q → (s : Step q r) → Spares q s → Unharmed p r

-- A watcher without watches and tasks, whose signals are open and taken
pub record Free (w : Watcher) : Type 0 where
  pub running : w.cancelled ≡ false
  pub no_watches : w.watches ≡ []
  pub no_tasks : w.init_task.queue ≡ []
  pub tasks_open : w.init_task.closed ≡ false
  pub signals_open : w.reconnect.closed ≡ false
  pub no_signals : w.reconnect.queue ≡ []

with_signal : Watcher → Watcher
with_signal w = record w { reconnect = record w.reconnect { queue = 1 ∷ [] } }

signals : (w : Watcher) → Free w → signal_reconnect w ≡ done (with_signal w)
unfolding signal_reconnect send_to with_signal
signals w f = rw f.signals_open (rw f.no_signals refl)

reader_ends : (w : Watcher) → Free w → read_fails other_error w ≡ done (with_signal w, [])
unfolding read_fails
reader_ends w f = ap (λ (m : Outcome Watcher). m >>= λ w'. done (w', [])) (signals w f)

redial :
    (w : Watcher)
    → Free w
    → connect none (with_signal w) ≡ done (record (with_signal w) { connected = true })
unfolding connect push_task send_to run_tasks run_task send with_signal
redial w f = rw f.tasks_open (rw f.no_tasks (rw f.no_watches refl))

-- A signal is pending while the only read routine still reads the connection.
record Shaken (p : Pump) : Type 0 where
  up : p.watcher.connected ≡ true
  pending : p.watcher.reconnect.queue ≡ 1 ∷ []
  lone : p.readers ≡ reads p.dialled ∷ []
  free : Free (disconnect p.watcher)

abbrev redialled : Watcher → Watcher
redialled w = record (with_signal w) { connected = true }

redialled-Free : (w : Watcher) → Free w → Free (disconnect (redialled w))
unfolding disconnect with_signal
redialled-Free w f = record {
  running = f.running;
  no_watches = f.no_watches;
  no_tasks = f.no_tasks;
  tasks_open = f.tasks_open;
  signals_open = f.signals_open;
  no_signals = refl;
}

-- The state one connection later
abbrev later : Pump → Pump
later p = record p {
  watcher = redialled (disconnect p.watcher);
  dialled = suc p.dialled;
  readers = reads (suc p.dialled) ∷ [];
  writers = p.writers ++ tests ∷ [];
  closed = p.closed ++ p.dialled ∷ [];
}

later-Shaken : (p : Pump) → Shaken p → Shaken (later p)
unfolding with_signal
later-Shaken p v = record {
  up = refl;
  pending = refl;
  lone = refl;
  free = redialled-Free (disconnect p.watcher) v.free;
}

round : (o p : Pump) → Shaken p → Unharmed o p → Unharmed o (later p)
unfolding disconnect Spares with_signal
round o p v u =
    let w = disconnect p.watcher in
    let lost : Unharmed o (record p { watcher = w; closed = p.closed ++ p.dialled ∷ [] }) =
      goes_on u (wakes 1 [] v.up v.pending) tt in
    let ended =
      goes_on lost (breaks [] [] [] p.dialled other_error v.lone (reader_ends w v.free))
        (λ (x : false ≡ true). absurd (ground (arith, x))) in
    let dialled = goes_on ended (dials none refl v.free.running (redial w v.free)) refl in
    goes_on dialled
      (enters [] [] _ refl (enter_up (redialled w) (suc p.dialled) v.free.running refl)) tt

record Rounds (n : ℕ) (o p q : Pump) : Type 0 where
  path : Unharmed o q
  shaken : Shaken q
  dialled_more : q.dialled ≡ n + p.dialled
  closed_more : length q.closed ≡ n + length p.closed

rounds : (n : ℕ) (o p : Pump) → Shaken p → Unharmed o p → (q : Pump) × Rounds n o p q
rounds zero o p v u =
    (p, record { path = u; shaken = v; dialled_more = omega arith; closed_more = omega arith })
rounds (suc n) o p v u =
    let (q, r) = rounds n o p v u in
    (
      later q,
      record {
        path = round o q r.shaken r.path;
        shaken = later-Shaken q r.shaken;
        dialled_more = let d = r.dialled_more in omega arith;
        closed_more =
            let c = r.closed_more in omega (arith, length-append q.closed (q.dialled ∷ []));
      },
    )

-- case d := <-w.sendQ, and a write of it that fails as a socket's does
lost_write :
    (w : Watcher) (b : Bytes) (q : List Bytes)
    → Free w
    → w.connected ≡ true
    → write_frame (some other_error) b (left_queue q w)
      ≡ done (with_signal (left_queue q w), tells other_error)
unfolding write_frame after_write sync_write signal_reconnect send_to with_signal after_send
lost_write w b q f up = rw up (rw f.signals_open (rw f.no_signals refl))

-- A connection on which the only read routine waits for a frame, of a watcher that is not
-- cancelled, watches nothing and has no task and no signal: after one write that fails, and for any
-- number n, there is a run in which no read or write of a current connection fails, and yet n
-- connections are closed and n are dialled.
pub failed_write_repeats :
    (n : ℕ) (p : Pump) (b : Bytes) (q : List Bytes) (before after : List WriterAt)
    → Free p.watcher
    → p.watcher.connected ≡ true
    → p.readers ≡ reads p.dialled ∷ []
    → p.writers ≡ before ++ takes ∷ after
    → p.watcher.send_q.queue ≡ b ∷ q
    → (failed : Pump) × (last : Pump) × Step p failed
      × Unharmed failed last
      × (last.dialled ≡ n + p.dialled)
      × (length last.closed ≡ n + length p.closed)
unfolding with_signal disconnect
failed_write_repeats n p b q before after f up lone at queued =
    let failed : Pump = record p {
      watcher = with_signal (left_queue q p.watcher);
      writers = before ++ tells other_error ∷ after;
    } in
    let free : Free (disconnect failed.watcher) = record {
      running = f.running;
      no_watches = f.no_watches;
      no_tasks = f.no_tasks;
      tasks_open = f.tasks_open;
      signals_open = f.signals_open;
      no_signals = refl;
    } in
    let (last, r) =
      rounds n failed failed (record { up = up; pending = refl; lone = lone; free = free })
        begins in
    (
      failed,
      last,
      sends before after (some other_error) b q at queued (lost_write p.watcher b q f up),
      r.path,
      r.dialled_more,
      r.closed_more,
    )
