-- ===== src/Signals.antt =====
-- SetupSignalHandler of k8s/pkg/signals/signal.go: its goroutine, over the signals that the process
-- gets and the end of its context.
use fs_lib.Prelude.{ℕ, suc, ◌≤◌, List, [], ◌∷◌, ◌≡◌, refl, arith}

-- Interrupt or SIGTERM; the context done
pub data Wakes : Type 0 where
  signal context_done : Wakes

pub data Effect : Type 0 where
  closes_stop : Effect
  exits : ℕ → Effect

-- <-c; os.Exit(1), behind the first signal: the context is not looked at any more.
unfoldable pub second_signal : List Wakes → List Effect
second_signal [] = []
second_signal (signal ∷ rest) = exits 1 ∷ []
second_signal (context_done ∷ rest) = second_signal rest

-- The select of the goroutine
unfoldable pub setup_signal_handler : List Wakes → List Effect
unfolding second_signal
setup_signal_handler [] = []
setup_signal_handler (signal ∷ rest) = closes_stop ∷ second_signal rest
setup_signal_handler (context_done ∷ rest) = closes_stop ∷ exits 1 ∷ []

abbrev pub closes : List Effect → ℕ
closes [] = 0
closes (closes_stop ∷ rest) = suc (closes rest)
closes (exits n ∷ rest) = closes rest

second_signal-closes : (wakes : List Wakes) → closes (second_signal wakes) ≡ 0
unfolding second_signal
second_signal-closes [] = refl
second_signal-closes (signal ∷ rest) = refl
second_signal-closes (context_done ∷ rest) = second_signal-closes rest

-- Whatever wakes the goroutine, the channel is closed at most once, so that the close never panics.
pub setup_signal_handler-closes : (wakes : List Wakes) → closes (setup_signal_handler wakes) ≤ 1
unfolding setup_signal_handler
setup_signal_handler-closes [] = omega arith
setup_signal_handler-closes (signal ∷ rest) = omega (arith, second_signal-closes rest)
setup_signal_handler-closes (context_done ∷ rest) = omega arith
