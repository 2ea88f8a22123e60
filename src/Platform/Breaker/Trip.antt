-- ===== src/Platform/Breaker/Trip.antt =====
-- When a breaker opens, whom it refuses, and what a probe decides (circuit_breaker.py).
use loupe_backend.Prelude.{
  ℕ, ◌+◌, ◌-◌, ◌≤◌, ◌<◌, ◌≡◌, refl, true, false, none, some, List, [], ◌∷◌, arith, leb, length,
  is_some, dec_lt, Option-cases, ◌⊎◌, inl, inr, if◌then◌else◌, get, get-put, String, str_eq,
}
use text.Mathlib.TextPositions.{eq_refl}
use loupe_backend.Platform.Breaker.{
  Breaker, refused, probing, calling, succeeded, failed, record_failure, enter, leave, Registry,
  get_breaker, new_breaker,
}

-- The failures of a list of calls, at the times at which they were recorded.
unfoldable pub fail_all : Breaker → List ℕ → Breaker
fail_all b [] = b
fail_all b (t ∷ ts) = fail_all (record_failure b t) ts

abbrev pub last_or : ℕ → List ℕ → ℕ
last_or d [] = d
last_or d (t ∷ ts) = last_or t ts

failures-fail_all : (b : Breaker) (ts : List ℕ) → (fail_all b ts).failures ≡ b.failures + length ts
unfolding fail_all record_failure
failures-fail_all b [] = omega arith
failures-fail_all b (t ∷ ts) = ground (arith, failures-fail_all (record_failure b t) ts)

opened-fail_all :
    (b : Breaker) (ts : List ℕ) {t : ℕ}
    → b.opened_at ≡ some t
    → (fail_all b ts).opened_at ≡ some (last_or t ts)
unfolding fail_all record_failure
opened-fail_all b [] e = e
opened-fail_all b (u ∷ ts) e = opened-fail_all (record_failure b u) ts (ground arith)

trip_from :
    (b : Breaker) (ts : List ℕ) (d : ℕ)
    → b.failures < b.failure_threshold
    → b.opened_at ≡ none
    → (fail_all b ts).opened_at
      ≡ (if leb b.failure_threshold (b.failures + length ts) then some (last_or d ts) else none)
unfolding fail_all record_failure
trip_from b [] d h e = ground arith
trip_from b (t ∷ ts) d h e =
    ground
      (arith, trip_from (record_failure b t) ts t, opened-fail_all (record_failure b t) ts {t = t})

-- A new breaker with a positive threshold is open after a run of failures, with no success between,
-- exactly when the run has at least `failure_threshold` of them, and then its cooldown counts from
-- the last one.
pub opened-fail_all-new_breaker :
    (name : String) (threshold cooldown : ℕ) (ts : List ℕ)
    → 0 < threshold
    → (fail_all (new_breaker name threshold cooldown) ts).opened_at
      ≡ (if leb threshold (length ts) then some (last_or 0 ts) else none)
opened-fail_all-new_breaker name threshold cooldown ts h =
    ground (arith, trip_from (new_breaker name threshold cooldown) ts 0 h refl)

-- What `guard` says to a caller, in every state of the breaker: before `opened_at + cooldown_s` it
-- refuses, changes nothing and names the time that is left, which is positive and at most the
-- cooldown; from then on it hands out the probe, and refuses while another caller has it.
pub enter_opened :
    (b : Breaker) (t now : ℕ)
    → b.opened_at ≡ some t
    → t ≤ now
    → ((now < t + b.cooldown)
        × (enter b now ≡ (refused (t + b.cooldown - now), b))
        × (0 < t + b.cooldown - now)
        × (t + b.cooldown - now ≤ b.cooldown))
      ⊎ ((t + b.cooldown ≤ now)
          × (enter b now ≡ (
              if b.probe_locked
              then (refused 0, b)
              else (probing, record b { probe_locked = true }))))
unfolding enter
enter_opened b t now e h = elim (dec_lt now (t + b.cooldown)) [
  | yes p ↦ inl (p, ground arith, omega arith, omega arith)
  | no p ↦ inr (omega arith, ground arith)
]

-- A probe decides: after a success the next caller is let through and the count of failures is 0;
-- after a failure at `later` nobody is let through before `later + cooldown_s`.
pub probe_decides :
    (b : Breaker) (later now : ℕ)
    → is_some b.opened_at ≡ true
    → let good = leave b probing succeeded later in
      let bad = leave b probing failed later in
      (enter good now ≡ (calling, good))
      × (good.failures ≡ 0)
      × (now < later + b.cooldown → enter bad now ≡ (refused (later + b.cooldown - now), bad))
      × (bad.probe_locked ≡ false)
unfolding enter leave
probe_decides b later now o = (ground arith, ground arith, λ h. ground arith, ground arith)

-- The outcome of a call that was admitted before the breaker opened also counts while it is open: a
-- success closes the breaker before its cooldown has passed, and a failure starts the cooldown anew.
pub late_outcome :
    (b : Breaker) (t later now : ℕ)
    → b.opened_at ≡ some t
    → now < t + b.cooldown
    → now < later + b.cooldown
    → (enter (leave b calling succeeded later) now ≡ (calling, leave b calling succeeded later))
      × ((enter (leave b calling failed later) now).0 ≡ refused (later + b.cooldown - now))
unfolding enter leave
late_outcome b t later now e h k = (ground arith, ground arith)

-- The registry keeps one breaker to a name: a second request finds the first one's breaker, whatever
-- thresholds it brings, and other names are not touched.
pub get_breaker_stable :
    (rs : Registry) (name other : String) (threshold cooldown threshold' cooldown' : ℕ)
    → let (b, rs') = get_breaker rs name threshold cooldown in
      (get_breaker rs' name threshold' cooldown' ≡ (b, rs'))
      × (str_eq name other ≡ false → get other rs' ≡ get other rs)
unfolding get_breaker
get_breaker_stable rs name other threshold cooldown threshold' cooldown' =
    elim (Option-cases (get name rs)) [
      | inl missing ↦
          rw (missing, get_breaker)
            (rw (get-put name name, eq_refl) refl, λ h. rw (get-put name other, h) refl)
      | inr (b, found) ↦ rw (found, get_breaker) (rw (found, get_breaker) refl, λ h. refl)
    ]
