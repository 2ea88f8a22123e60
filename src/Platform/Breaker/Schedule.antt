-- ===== src/Platform/Breaker/Schedule.antt =====
-- Concurrent callers of one breaker's `guard` (circuit_breaker.py): each event is one turn of the
-- event loop, and a caller gives the turn away only inside its guarded block.
use loupe_backend.Prelude.{
  ℕ, ◌+◌, ◌-◌, ◌≤◌, ◌<◌, ◌==◌, ◌≡◌, ◌↔◌, refl, true, String, List, [], ◌∷◌, arith, leb, is_some,
  if◌then◌else◌,
}
use loupe_backend.Platform.Breaker.{
  Breaker, Admission, Outcome, refused, probing, calling, succeeded, failed, cancelled, enter,
  leave, new_breaker,
}

-- A breaker, with the numbers of callers inside their guarded blocks.
pub record Service : Type 0 where
  pub breaker : Breaker
  pub probes : ℕ
  pub calls : ℕ

-- Somebody asks; a probe ends; an ordinary call ends.
pub data Event : Type 0 where
  arrives : ℕ → Event
  probe_ends : Outcome → ℕ → Event
  call_ends : Outcome → ℕ → Event

abbrev admit : Admission → Breaker → Service → Service
admit (refused r) b s = record s { breaker = b }
admit probing b s = record s { breaker = b; probes = s.probes + 1 }
admit calling b s = record s { breaker = b; calls = s.calls + 1 }

-- An end with nobody inside is no event.
unfoldable pub step : Service → Event → Service
unfolding enter leave
step s (arrives now) = let (a, b) = enter s.breaker now in admit a b s
step s (probe_ends o now) =
    if s.probes == 0
    then s
    else record s { breaker = leave s.breaker probing o now; probes = s.probes - 1 }
step s (call_ends o now) =
    if s.calls == 0
    then s
    else record s { breaker = leave s.breaker calling o now; calls = s.calls - 1 }

unfoldable pub run : Service → List Event → Service
run s [] = s
run s (e ∷ es) = run (step s e) es

abbrev pub idle : Breaker → Service
idle b = record { breaker = b; probes = 0; calls = 0 }

pub record IsSound (threshold : ℕ) (s : Service) : Type 0 where
  pub kept : s.breaker.failure_threshold ≡ threshold
  pub single : s.probes ≡ (if s.breaker.probe_locked then 1 else 0)
  pub opened : is_some s.breaker.opened_at ≡ leb threshold s.breaker.failures

step-IsSound : {k : ℕ} (s : Service) (e : Event) → 0 < k → IsSound k s → IsSound k (step s e)
unfolding step
step-IsSound s (arrives now) p h = ground arith
step-IsSound s (probe_ends succeeded now) p h = ground arith
step-IsSound s (probe_ends failed now) p h = ground arith
step-IsSound s (probe_ends cancelled now) p h = ground arith
step-IsSound s (call_ends succeeded now) p h = ground arith
step-IsSound s (call_ends failed now) p h = ground arith
step-IsSound s (call_ends cancelled now) p h = ground arith

run-IsSound : {k : ℕ} (s : Service) (es : List Event) → 0 < k → IsSound k s → IsSound k (run s es)
unfolding run
run-IsSound s [] p h = h
run-IsSound s (e ∷ es) p h = run-IsSound (step s e) es p (step-IsSound s e p h)

-- However the callers of a new breaker with a positive threshold interleave, at most one probe is in
-- flight, the lock is held exactly while it is, and the breaker is open (or half-open) exactly while
-- its count of failures is at least the threshold.
pub run-new_breaker_sound :
    (name : String) (threshold cooldown : ℕ) (es : List Event)
    → 0 < threshold
    → let s = run (idle (new_breaker name threshold cooldown)) es in
      (s.probes ≤ 1)
      × ((s.breaker.probe_locked ≡ true) ↔ (s.probes ≡ 1))
      × (is_some s.breaker.opened_at ≡ leb threshold s.breaker.failures)
run-new_breaker_sound name threshold cooldown es p =
    let h =
      run-IsSound (idle (new_breaker name threshold cooldown)) es p
        (record { kept = refl; single = refl; opened = ground arith }) in
    (ground arith, (λ e. ground arith, λ e. ground arith), h.opened)
