-- ===== src/Platform/Swr/Flight.antt =====
-- How many refreshes run at once (cache_swr.py).
use loupe_backend.Prelude.{
  if_elim, ℕ, ◌+◌, ◌≤◌, ◌≡◌, ap, inl, inr, Bool, true, false, ◌&&◌, not, Option, none, some, List,
  [], ◌∷◌, arith, if◌then◌else◌, Option-cases, length,
}
use loupe_backend.Platform.Swr.{
  Value, Cache, Ttls, Runner, Fleet, Event, beginning, spawning, ending, take_out, add_runner,
  is_vetoed, is_held, store, acquire_lock, begun, begin_refresh, end_refresh, finish, begin_on,
  step, run,
}
use loupe_backend.Platform.Swr.Runners.{
  holders, unlocked, one_if, holders-unlocked, unlocked-take_out, all_locked, in_time, holders_free,
  all_locked_free, all_locked_unlocked, taken, holders-take_out, all_locked-take_out,
}

module _ {V : Type 0} where
  -- The time of an event.
  abbrev pub time_of : Event V → ℕ
  time_of (beginning require_lock now) = now
  time_of (spawning gate now) = now
  time_of (ending n result now) = now

  -- No refresh has outlived its lock at any event of the sequence.
  unfoldable pub is_timely : Ttls → Fleet V → List (Event V) → Bool
  is_timely t fl [] = true
  is_timely t fl (e ∷ es) = in_time t fl.running (time_of e) && is_timely t (step t fl e) es

  -- At most one refresh holds the lock, and the lock is that refresh's.
  pub record Single (t : Ttls) (fl : Fleet V) : Type 0 where
    pub alone : holders fl.running ≤ 1
    pub locked : all_locked t fl.running fl.cache.lock ≡ true

  abbrev made : Bool → ℕ → List Runner → Bool × Cache V → Fleet V
  made require_lock now rs p =
      let (r, c) = begun require_lock now p in record { cache = c; running = add_runner r rs }

  made_declined :
      (t : Ttls) (require_lock : Bool) (now : ℕ) (fl : Fleet V)
      → Single t fl
      → Single t (made require_lock now fl.running (false, fl.cache))
  unfolding holders all_locked
  made_declined t true now fl s = record { alone = s.alone; locked = s.locked }
  made_declined t false now fl s = record {
    alone = s.alone;
    locked = all_locked_unlocked t now fl.running fl.cache.lock s.locked;
  }

  made_taken :
      (t : Ttls) (require_lock : Bool) (now : ℕ) (fl : Fleet V)
      → holders fl.running ≡ 0
      → Single t (
          made require_lock now fl.running
            (true, record (fl.cache) { lock = some (now + t.lock_ttl) }))
  unfolding holders all_locked
  made_taken t require_lock now fl free = record {
    alone = ground (arith, free);
    locked = ground (arith, all_locked_free t fl.running (some (now + t.lock_ttl)) free);
  }

  begin_on-Single :
      (t : Ttls) (require_lock : Bool) (now : ℕ) (fl : Fleet V)
      → Single t fl
      → in_time t fl.running now ≡ true
      → Single t (begin_on t require_lock now fl)
  unfolding begin_refresh acquire_lock
  begin_on-Single t require_lock now fl s timely =
      if_elim {A = Bool × Cache V} (λ p. Single t (made require_lock now fl.running p))
        (is_held now fl.cache.lock) _ _ (λ _. made_declined t require_lock now fl s)
        (λ free.
          made_taken t require_lock now fl
            (holders_free t fl.running now fl.cache.lock s.locked timely free))

  finish-lock :
      (t : Ttls) (r : Runner) (result : Option (Value V)) (now : ℕ) (c : Cache V)
      → (finish t (some r) result now c).lock ≡ (if r.have_lock then none else c.lock)
  unfolding end_refresh store
  finish-lock t r none now c = ground arith
  finish-lock t r (some v) now c = ground arith

  finish-Single :
      (t : Ttls) (n : ℕ) (result : Option (Value V)) (now : ℕ) (fl : Fleet V)
      → Single t fl
      → Single t (step t fl (ending n result now))
  unfolding step
  finish-Single t n result now fl s =
      let less = holders-take_out n fl.running in
      record {
        alone = ground (arith, less, s.alone);
        locked = elim (Option-cases (take_out n fl.running).0) [
          | inl e ↦ rw e (all_locked-take_out t n fl.running fl.cache.lock s.locked)
          | inr (r, e) ↦
              rw (e, finish-lock t r result now fl.cache)
                (if_elim {A = Option ℕ} (λ l. all_locked t (take_out n fl.running).1 l ≡ true)
                  r.have_lock _ _
                  (λ yes_.
                    all_locked_free t (take_out n fl.running).1 none
                      (ground (arith, less, s.alone, e, yes_, ap taken e)))
                  (λ _. all_locked-take_out t n fl.running fl.cache.lock s.locked))
        ];
      }

  step-Single :
      (t : Ttls) (fl : Fleet V) (e : Event V)
      → Single t fl
      → in_time t fl.running (time_of e) ≡ true
      → Single t (step t fl e)
  unfolding step
  step-Single t fl (beginning require_lock now) s timely =
      begin_on-Single t require_lock now fl s timely
  step-Single t fl (spawning gate now) s timely =
      if_elim (Single t) (is_vetoed gate) _ _ (λ _. s) (λ _. begin_on-Single t true now fl s timely)
  step-Single t fl (ending n result now) s timely = finish-Single t n result now fl s

  -- A refresh that begins without the demand for the lock, as the last resort of a cold miss.
  abbrev is_last_resort : Event V → Bool
  is_last_resort (beginning require_lock now) = not require_lock
  is_last_resort (spawning gate now) = false
  is_last_resort (ending n result now) = false

  unfoldable pub last_resorts : List (Event V) → ℕ
  last_resorts [] = 0
  last_resorts (e ∷ es) = one_if (is_last_resort e) + last_resorts es

  unlocked-begin_on :
      (t : Ttls) (require_lock : Bool) (now : ℕ) (fl : Fleet V)
      → unlocked (begin_on t require_lock now fl).running
        ≤ unlocked fl.running + one_if (not require_lock)
  unfolding begin_refresh acquire_lock unlocked
  unlocked-begin_on t require_lock now fl =
      if_elim {A = Bool × Cache V}
        (λ p.
          unlocked (made require_lock now fl.running p).running
          ≤ unlocked fl.running + one_if (not require_lock))
        (is_held now fl.cache.lock) _ _ (λ _. declined require_lock) (λ _. omega arith)
    where
      declined :
          (b : Bool)
          → unlocked (made b now fl.running (false, fl.cache)).running
            ≤ unlocked fl.running + one_if (not b)
      declined true = omega arith
      declined false = omega arith

  unlocked-step :
      (t : Ttls) (fl : Fleet V) (e : Event V)
      → unlocked (step t fl e).running ≤ unlocked fl.running + one_if (is_last_resort e)
  unfolding step
  unlocked-step t fl (beginning require_lock now) = unlocked-begin_on t require_lock now fl
  unlocked-step t fl (spawning gate now) =
      if_elim {A = Fleet V} (λ g. unlocked g.running ≤ unlocked fl.running + 0) (is_vetoed gate) _ _
        (λ _. omega arith) (λ _. unlocked-begin_on t true now fl)
  unlocked-step t fl (ending n result now) = omega (arith, unlocked-take_out n fl.running)

  unlocked-run :
      (t : Ttls) (fl : Fleet V) (es : List (Event V))
      → unlocked (run t fl es).running ≤ unlocked fl.running + last_resorts es
  unfolding run last_resorts
  unlocked-run t fl [] = omega arith
  unlocked-run t fl (e ∷ es) = omega (arith, unlocked-step t fl e, unlocked-run t (step t fl e) es)

  Single-run :
      (t : Ttls) (fl : Fleet V) (es : List (Event V))
      → Single t fl
      → is_timely t fl es ≡ true
      → Single t (run t fl es)
  unfolding run is_timely
  Single-run t fl [] s timely = s
  Single-run t fl (e ∷ es) s timely =
      Single-run t (step t fl e) es (step-Single t fl e s (ground (arith, timely)))
        (ground (arith, timely))

  -- One refresh at a time, but for last resorts: from a state with at most one holder of the lock, and as long as
  -- no refresh outlives its lock, after any sequence of requests, background refreshes and results at most one refresh
  -- holds the lock, the lock is the holder's own, and the refreshes that run are at most one more than those that
  -- ran without the lock at the start and those that a cold miss has begun since as its last resort.
  pub run-Single :
      (t : Ttls) (fl : Fleet V) (es : List (Event V))
      → Single t fl
      → is_timely t fl es ≡ true
      → Single t (run t fl es)
        × length (run t fl es).running ≤ 1 + unlocked fl.running + last_resorts es
  run-Single t fl es s timely =
      let one = Single-run t fl es s timely in
      (one, omega (arith, one.alone, holders-unlocked (run t fl es).running, unlocked-run t fl es))
