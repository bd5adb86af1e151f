-- ===== src/Daemon/Link/Race.antt =====
-- Write beside the goroutine that reads: both use the client field without a lock.
use fs_lib.Prelude.{◌≡◌, true, some, arith, ℕ, err}
use fs_lib.Daemon.Link.{
  reads, Link, Env, step, step_at, after_read, clear_client, write_checks, write_calls,
  write_message, nil_client, passed_on,
}

-- On a connection whose goroutine stands at Read, a Write with nothing between its test and its call
-- goes to the client; but if the goroutine reads an error between them, the test has succeeded and
-- the call is made on nil.
pub write_races_close :
    {E : Type 0} (l : Link) (i : ℕ) (env : Env E) (e : E)
    → l.pc ≡ reads
    → l.client ≡ some i
    → env.answer ≡ err e
    → (write_message l ≡ passed_on i)
      × (write_checks l ≡ true)
      × (write_calls (step env l).0 ≡ nil_client)
unfolding write_message step step_at after_read clear_client
write_races_close l i env e at up failed = (ground arith, ground arith, ground arith)
