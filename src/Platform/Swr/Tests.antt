-- ===== src/Platform/Swr/Tests.antt =====
-- Runs of the stale-while-revalidate cache.
use loupe_backend.Prelude.{
  ℕ, ◌+◌, ◌*◌, ◌≤◌, ◌≡◌, refl, true, false, none, some, List, [], ◌∷◌, arith, ltb, if◌then◌else◌,
  length,
}
use loupe_backend.Platform.Swr.{
  envelope, Ttls, stale, Poll, served, Fleet, Event, beginning, spawning, ending, look_up, step,
  run,
}
use loupe_backend.Platform.Swr.Runners.{holders, unlocked, all_locked, in_time}
use loupe_backend.Platform.Swr.Flight.{last_resorts, is_timely, Single, run-Single}
use loupe_backend.Platform.Swr.Serve.{is_quiet, look_up-run}
use loupe_backend.Platform.Swr.Wait.{
  cold_wait, is_over, is_waiting, cold_wait_ends, cold_wait_serves,
}

abbrev minute : Ttls
minute = record { fresh_ttl = 60000; stale_ttl = 3600000; lock_ttl = 60000 }

abbrev cold : Fleet ℕ
cold = record { cache = record { l1 = none; l2 = none; lock = none }; running = [] }

cold-Single : Single minute cold
unfolding holders all_locked
cold-Single = record { alone = omega arith; locked = refl }

-- Two cold requests, of which the second finds the lock taken; the first is answered and a later request
-- refreshes in the background.
abbrev morning : List (Event ℕ)
morning =
    beginning true 1000
    ∷ beginning true 1500
    ∷ ending 0 (some (some 7)) 5000
    ∷ spawning none 70000
    ∷ spawning (some true) 70100
    ∷ spawning (some false) 70200
    ∷ []

run-Single_example :
    Single minute (run minute cold morning)
    × length (run minute cold morning).running ≤ 1 + unlocked cold.running + last_resorts morning
unfolding is_timely in_time step
run-Single_example = run-Single minute cold morning cold-Single refl

one_runs : length (run minute cold morning).running ≡ 1
unfolding run
one_runs = refl

-- The first refresh outlives its lock and, as it ends, gives away the lock of the second: a third begins
-- while the second still runs.
overrun :
    holders
      (run minute cold (
        beginning true 0
        ∷ spawning none 61000
        ∷ ending 1 none 62000
        ∷ beginning true 63000
        ∷ [])).running
    ≡ 2
unfolding run holders
overrun = refl

abbrev started : Fleet ℕ
started = step minute cold (beginning true 1000)

look_up-run_example :
    look_up 70200
      (run minute
        (step minute started (ending 0 (some (some 7)) 5000))
        (spawning none 70000 ∷ ending 0 none 70100 ∷ [])).cache
    ≡ stale 7
unfolding step is_quiet
look_up-run_example =
    look_up-run minute started (record { have_lock = true; since = 1000 }) 0 7 5000 70200
      (spawning none 70000 ∷ ending 0 none 70100 ∷ []) refl refl (omega arith)

-- Another's refresh stores its value before the fourth poll.
abbrev poll : ℕ → Poll ℕ
poll i = record {
  time = 1000 + 200 * i;
  seen =
      (if ltb i 3 then none else some (envelope (record { data_ = some 7; fresh_until = 9000 })));
  held = true;
}

cold_wait_ends_example : is_over (cold_wait poll 1000 2000 76) ≡ true
cold_wait_ends_example =
    cold_wait_ends poll 1000 2000 75 (omega arith) (λ j. omega arith) (omega arith)

cold_wait_serves_run : cold_wait poll 1000 2000 (3 + 76) ≡ served 7
unfolding is_waiting
cold_wait_serves_run =
    cold_wait_serves poll 1000 2000 3 75 (record { data_ = some 7; fresh_until = 9000 }) 7 refl
      (omega arith) refl refl
