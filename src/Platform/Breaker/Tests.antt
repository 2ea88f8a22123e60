-- ===== src/Platform/Breaker/Tests.antt =====
-- Runs of the breaker, and the theorems of its children at concrete inputs.
use loupe_backend.Prelude.{
  ◌+◌, ◌-◌, ◌≤◌, ◌<◌, ◌≡◌, refl, ◌↔◌, ◌⊎◌, true, false, none, some, List, [], ◌∷◌, arith, str_eq,
  leb, is_some, get,
}
use loupe_backend.Platform.Breaker.{
  Breaker, refused, probing, calling, succeeded, failed, cancelled, enter, leave, new_breaker,
  get_breaker, reset_all_breakers,
}
use loupe_backend.Platform.Breaker.Trip.{
  fail_all, opened-fail_all-new_breaker, enter_opened, probe_decides, late_outcome,
  get_breaker_stable,
}
use loupe_backend.Platform.Breaker.Schedule.{
  step, Event, arrives, call_ends, run, idle, run-new_breaker_sound,
}

-- Opened at 100, cooling down for 60.
abbrev tripped : Breaker
tripped = record {
  name = "pokemontcg";
  failure_threshold = 5;
  cooldown = 60;
  failures = 5;
  opened_at = some 100;
  probe_locked = false;
}

opened-fail_all-new_breaker_run :
    (fail_all (new_breaker "scryfall" 3 60) (10 ∷ 20 ∷ 30 ∷ 40 ∷ [])).opened_at ≡ some 40
opened-fail_all-new_breaker_run =
    opened-fail_all-new_breaker "scryfall" 3 60 (10 ∷ 20 ∷ 30 ∷ 40 ∷ []) (omega arith)

enter_opened_run :
    ((130 < 160) × (enter tripped 130 ≡ (refused 30, tripped)) × (0 < 30) × (30 ≤ 60))
    ⊎ ((160 ≤ 130) × (enter tripped 130 ≡ (probing, record tripped { probe_locked = true })))
enter_opened_run = enter_opened tripped 100 130 refl (omega arith)

probe_decides_run :
    let good = leave tripped probing succeeded 170 in
    let bad = leave tripped probing failed 170 in
    (enter good 180 ≡ (calling, good))
    × (good.failures ≡ 0)
    × (180 < 170 + 60 → enter bad 180 ≡ (refused (170 + 60 - 180), bad))
    × (bad.probe_locked ≡ false)
probe_decides_run = probe_decides tripped 170 180 refl

late_outcome_example :
    (enter (leave tripped calling succeeded 110) 120
      ≡ (calling, leave tripped calling succeeded 110))
    × ((enter (leave tripped calling failed 110) 120).0 ≡ refused 50)
late_outcome_example = late_outcome tripped 100 110 120 refl (omega arith) (omega arith)

scryfall_stays :
    let (b, rs') = get_breaker [] "scryfall" 3 60 in
    (get_breaker rs' "scryfall" 9 5 ≡ (b, rs'))
    × (str_eq "scryfall" "tcgcsv" ≡ false → get "tcgcsv" rs' ≡ none)
unfolding get
scryfall_stays = get_breaker_stable [] "scryfall" "tcgcsv" 3 60 9 5

-- Two calls fail; the breaker opens; two callers come for the probe and one is refused.
abbrev storm : List Event
storm =
    arrives 1
    ∷ arrives 2
    ∷ call_ends failed 3
    ∷ call_ends failed 4
    ∷ arrives 5
    ∷ arrives 70
    ∷ arrives 71
    ∷ []

run-new_breaker_sound_example :
    let s = run (idle (new_breaker "scryfall" 2 60)) storm in
    (s.probes ≤ 1)
    × ((s.breaker.probe_locked ≡ true) ↔ (s.probes ≡ 1))
    × (is_some s.breaker.opened_at ≡ leb 2 s.breaker.failures)
run-new_breaker_sound_example = run-new_breaker_sound "scryfall" 2 60 storm (omega arith)

storm_runs :
    let s = run (idle (new_breaker "scryfall" 2 60)) storm in
    (s.probes ≡ 1) × (s.calls ≡ 0) × (s.breaker.opened_at ≡ some 4)
unfolding run step
storm_runs = (refl, refl, refl)

-- A cancelled probe leaves the breaker half-open, and gives the lock back.
cancelled_probe :
    (enter (leave (record tripped { probe_locked = true }) probing cancelled 165) 166).0 ≡ probing
unfolding enter leave
cancelled_probe = refl

reset_closes :
    reset_all_breakers (("pokemontcg", tripped) ∷ [])
    ≡ ("pokemontcg", record tripped { failures = 0; opened_at = none }) ∷ []
unfolding reset_all_breakers
reset_closes = refl
