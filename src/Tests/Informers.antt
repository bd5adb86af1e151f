-- ===== src/Tests/Informers.antt =====
-- The informer factory.
use fs_lib.Prelude.{
  true, distinct, keys, ℕ, List, [], ◌∷◌, ◌≡◌, refl, Bytes, codes, equal, lookup, insert,
  id-IsRangeOrder,
}
use fs_lib.Informers.{
  Factory, new_factory, with_custom_resync_config, shutdown, Call, asks, starts, run,
}
use fs_lib.Informers.Once.{Sound, informers_run_once}
use fs_lib.Daemon.Program.{set_up, run_command, daemon_runs_one_informer}

abbrev watchers : Bytes
watchers = codes "*v1alpha1.FSWatcher"

abbrev visits : List Bytes → List Bytes
visits ks = ks

-- An informer is its number and its resync period.
abbrev new_informer : ℕ → ℕ → ℕ × ℕ
new_informer number period = (number, period)

abbrev calls : List (Call (ℕ × ℕ) ℕ)
calls = asks watchers new_informer ∷ starts visits ∷ asks watchers new_informer ∷ starts visits ∷ []

abbrev fresh : Factory (ℕ × ℕ) ℕ ℕ
fresh = new_factory 0 (with_custom_resync_config ((watchers, 30) ∷ []) ∷ [])

informers_run_once_example :
    Sound (run calls fresh)
    × ((run (starts visits ∷ []) (shutdown (run calls fresh))).runs ≡ (run calls fresh).runs)
informers_run_once_example =
    informers_run_once 0 (with_custom_resync_config ((watchers, 30) ∷ []) ∷ []) calls
      (starts visits ∷ [])

runs_once : (run calls fresh).runs ≡ (watchers, (0, 30)) ∷ []
unfolding run new_factory lookup insert equal
runs_once = refl

daemon_runs_one_informer_example :
    ((set_up {T = ℕ} 0 new_informer).app_lister ≡ (0, 0))
    × ((set_up {T = ℕ} 0 new_informer).controller_lister ≡ (0, 0))
    × ((set_up {T = ℕ} 0 new_informer).controller_synced ≡ (0, 0))
    × ((set_up {T = ℕ} 0 new_informer).handlers ≡ (0, 0))
    × (distinct (keys (run_command visits (λ period. true) (set_up {T = ℕ} 0 new_informer)).0.runs)
        ≡ true)
    × ((k : Bytes)
        → lookup k (run_command visits (λ period. true) (set_up {T = ℕ} 0 new_informer)).0.runs
          ≡ lookup k ((watchers, (0, 0)) ∷ []))
daemon_runs_one_informer_example =
    daemon_runs_one_informer ℕ 0 new_informer visits (λ period. true) id-IsRangeOrder
