-- ===== src/Tests/Readers.antt =====
-- The read and send routines of the client library, step by step.
use fs_lib.Prelude.{
  ◌⊎◌, Bool, ◌≤◌, take, replicate, drop, [], ◌∷◌, ◌≡◌, refl, true, none, Bytes, codes, ◌+◌, length,
}
use fs_lib.Event.{Event}
use fs_lib.Wire.Message.{package_msg, unpack_msg, msg_event}
use fs_lib.Wire.Frames.{pack_event, unpack_event}
use fs_lib.Jfs.Chan.{done, send_to}
use fs_lib.Jfs.Watcher.{Watcher, new_watcher}
use fs_lib.Jfs.Connection.{
  connect, disconnect, handle_frame, received, push_task, run_tasks, run_task,
}
use fs_lib.Jfs.Readers.{
  Pump, new_pump, selects, reads, hands, tests, takes, hand_over, enter, Step, dials, enters, gets,
  gives, Reach, here, next, Crashes,
}
use fs_lib.Jfs.Readers.Owned.{Owned, run-Owned}
use fs_lib.Jfs.Readers.Handed.{count, held}
use fs_lib.Jfs.Readers.Handed.Ordered.{run-KeepsEvents}
use fs_lib.Jfs.Readers.Handed.Drained.{Takes, none_yet, one_more, CanTakeOne, events_drain}
use fs_lib.Jfs.Readers.Leftover.{old_reader}
use fs_lib.Jfs.Readers.Repeats.{Free, Unharmed, failed_write_repeats}
use fs_lib.Wire.Codec.{put_uint32, field, bytes_to_int, trim}
use fs_lib.Wire.Frames.{read_frame}

abbrev fresh : Watcher
fresh = new_watcher (codes "ns") (codes "p/c/w")

abbrev event : Event
event = record { name = codes "/a/x"; op = 1; key = codes "/a" }

abbrev message : Bytes
message = package_msg msg_event (pack_event event)

abbrev linked : Watcher
linked = record fresh { connected = true }

linked_by : connect none fresh ≡ done linked
unfolding connect push_task send_to run_tasks run_task
linked_by = refl

-- The program has taken the event of the first frame, and a second frame holds it again.
abbrev holding : Pump
holding = record {
  watcher = linked;
  dialled = 1;
  readers = hands event [] ∷ [];
  writers = tests ∷ [];
  frames = message ∷ message ∷ [];
  events = event ∷ [];
  closed = [];
}

reads_on : Reach (new_pump fresh) holding
unfolding enter hand_over handle_frame package_msg pack_event unpack_msg unpack_event put_uint32
    field take replicate drop bytes_to_int read_frame trim
reads_on =
    let dialled : Reach (new_pump fresh) (record (new_pump fresh) {
      watcher = linked;
      dialled = 1;
      readers = selects ∷ [];
      writers = tests ∷ [];
    }) =
      next here (dials none refl refl linked_by) in
    let once =
      next (next dialled (enters [] [] (reads 1 ∷ []) refl refl)) (gets [] [] message refl refl) in
    let taken = next once (gives [] [] event [] refl) in
    next (next taken (enters [] [] (reads 1 ∷ []) refl refl)) (gets [] [] message refl refl)

run-Owned_example : Owned holding
run-Owned_example = run-Owned fresh holding refl reads_on

run-KeepsEvents_example :
    ((test : Event → Bool)
      → count test (event ∷ []) + count test (held (hands event [] ∷ []))
        ≡ count test (received (message ∷ message ∷ [])))
    × ((event ∷ held (hands event [] ∷ []) ≡ received (message ∷ message ∷ [])) ⊎ (2 ≤ 1))
run-KeepsEvents_example = run-KeepsEvents fresh holding refl reads_on

-- The connection is lost while the routine holds the event.
abbrev losing : Pump
losing = record holding {
  watcher = record linked { reconnect = record linked.reconnect { queue = 1 ∷ [] } };
}

redialled : connect none (disconnect losing.watcher) ≡ done linked
unfolding connect push_task send_to run_tasks run_task disconnect
redialled = refl

old_reader_example :
    ((q : Pump) × Reach losing q × Crashes q)
    × ((q : Pump) × Reach losing q
        × (q.dialled ≡ 2)
        × (q.readers ≡ reads q.dialled ∷ reads q.dialled ∷ []))
old_reader_example = old_reader losing event 1 [] none linked refl refl refl refl redialled

abbrev waiting : Pump
waiting = record holding {
  watcher = record linked { send_q = record linked.send_q { queue = message ∷ [] } };
  readers = reads 1 ∷ [];
  writers = takes ∷ [];
}

waiting-Free : Free waiting.watcher
waiting-Free = record {
  running = refl;
  no_watches = refl;
  no_tasks = refl;
  tasks_open = refl;
  signals_open = refl;
  no_signals = refl;
}

failed_write_repeats_example :
    (failed : Pump) × (last : Pump) × Step waiting failed
    × Unharmed failed last
    × (last.dialled ≡ 3 + 1)
    × (length last.closed ≡ 3 + 0)
failed_write_repeats_example =
    failed_write_repeats 3 waiting message [] [] [] waiting-Free refl refl refl refl

abbrev taken_too : Pump
taken_too = record holding { readers = selects ∷ []; events = event ∷ event ∷ [] }

one_taken : Takes holding 1 taken_too
unfolding hand_over
one_taken = one_more [] [] event [] none_yet refl

events_drain_example :
    (1 + length (held taken_too.readers) ≡ length (held holding.readers))
    × (CanTakeOne taken_too
        ⊎ ((test : Event → Bool)
            → count test (event ∷ event ∷ []) ≡ count test (received (message ∷ message ∷ []))))
events_drain_example = events_drain fresh holding taken_too 1 refl reads_on one_taken
