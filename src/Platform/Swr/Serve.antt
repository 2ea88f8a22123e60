-- ===== src/Platform/Swr/Serve.antt =====
-- What requests are served (cache_swr.py).
use loupe_backend.Prelude.{
  if_elim, ℕ, ◌+◌, ◌<◌, ◌≡◌, refl, ap, ◌∙◌, inl, inr, Bool, true, false, ◌&&◌, not, Option, none,
  some, List, [], ◌∷◌, arith, ltb, if◌then◌else◌, Bool-cases,
}
use loupe_backend.Platform.Swr.{
  Entry, Cache, Ttls, Runner, fresh, stale, Fleet, Event, beginning, spawning, ending, take_out,
  is_vetoed, store, safe_get, acquire_lock, begin_refresh, end_refresh, finish, begin_on, look_up,
  step, run,
}

module _ {V : Type 0} where
  -- Whether an event stores a value.
  abbrev pub brings : Event V → Bool
  brings (beginning require_lock now) = false
  brings (spawning gate now) = false
  brings (ending n none now) = false
  brings (ending n (some v) now) = true

  unfoldable pub is_quiet : List (Event V) → Bool
  is_quiet [] = true
  is_quiet (e ∷ es) = not (brings e) && is_quiet es

  -- The stored texts, without the lock.
  abbrev texts : Cache V → Option (Entry V) × Option (Entry V)
  texts c = (c.l1, c.l2)

  begin_on-texts :
      (t : Ttls) (require_lock : Bool) (now : ℕ) (fl : Fleet V)
      → texts (begin_on t require_lock now fl).cache ≡ texts fl.cache
  unfolding begin_refresh acquire_lock
  begin_on-texts t require_lock now fl = ground arith

  finish-texts :
      (t : Ttls) (r : Option Runner) (now : ℕ) (c : Cache V)
      → texts (finish t r none now c) ≡ texts c
  unfolding end_refresh
  finish-texts t none now c = refl
  finish-texts t (some r) now c = ground arith

  step-texts :
      (t : Ttls) (fl : Fleet V) (e : Event V)
      → brings e ≡ false
      → texts (step t fl e).cache ≡ texts fl.cache
  unfolding step
  step-texts t fl (beginning require_lock now) quiet = begin_on-texts t require_lock now fl
  step-texts t fl (spawning gate now) quiet =
      if_elim {A = Fleet V} (λ f. texts f.cache ≡ texts fl.cache) (is_vetoed gate) _ _ (λ _. refl)
        (λ _. begin_on-texts t true now fl)
  step-texts t fl (ending n none now) quiet = finish-texts t (take_out n fl.running).0 now fl.cache
  step-texts t fl (ending n (some v) now) quiet = ground (arith, quiet)

  run-texts :
      (t : Ttls) (fl : Fleet V) (es : List (Event V))
      → is_quiet es ≡ true
      → texts (run t fl es).cache ≡ texts fl.cache
  unfolding run is_quiet
  run-texts t fl [] quiet = refl
  run-texts t fl (e ∷ es) quiet =
      run-texts t (step t fl e) es (ground (arith, quiet))
      ∙ step-texts t fl e (ground (arith, quiet))

  look_up-texts : (now : ℕ) (c d : Cache V) → texts c ≡ texts d → look_up now c ≡ look_up now d
  unfolding look_up safe_get
  look_up-texts now c d same =
      ap {A = Option (Entry V) × Option (Entry V)}
        (λ x. look_up now (record { l1 = x.0; l2 = x.1; lock = none })) same

  look_up-finish :
      (t : Ttls) (r : Runner) (v : V) (stored now : ℕ) (c : Cache V)
      → now < stored + t.stale_ttl
      → look_up now (finish t (some r) (some (some v)) stored c)
        ≡ (if ltb now (stored + t.fresh_ttl) then fresh v else stale v)
  unfolding look_up safe_get end_refresh store
  look_up-finish t r v stored now c soon = elim (Bool-cases r.have_lock) [
    | inl e ↦ ground (arith, e, soon)
    | inr e ↦ ground (arith, e, soon)
  ]

  -- What was refreshed is served: once the n-th refresh that runs ends with a value, every request finds that
  -- value without waiting until the stale window ends, as fresh until the fresh one does, whatever
  -- refreshes begin, are vetoed or fail after it.
  pub look_up-run :
      (t : Ttls) (fl : Fleet V) (r : Runner) (n : ℕ) (v : V) (stored now : ℕ) (es : List (Event V))
      → (take_out n fl.running).0 ≡ some r
      → is_quiet es ≡ true
      → now < stored + t.stale_ttl
      → look_up now (run t (step t fl (ending n (some (some v)) stored)) es).cache
        ≡ (if ltb now (stored + t.fresh_ttl) then fresh v else stale v)
  unfolding step
  look_up-run t fl r n v stored now es here quiet soon =
      let ended = step t fl (ending n (some (some v)) stored) in
      look_up-texts now (run t ended es).cache ended.cache (run-texts t ended es quiet)
      ∙ ap (λ o. look_up now (finish t o (some (some v)) stored fl.cache)) here
      ∙ look_up-finish t r v stored now fl.cache soon
