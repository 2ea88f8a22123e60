-- ===== src/Platform/Upstream/Accounting.antt =====
-- Which replies count against an integration's breaker (_resilient.py).
use loupe_backend.Prelude.{
  ℕ, ◌+◌, ◌≡◌, ◌⊎◌, Bool, true, false, ◌&&◌, ◌||◌, Option, none, some, List, arith, ◌==◌,
}
use loupe_backend.Platform.Breaker.{Breaker, calling, enter, leave}
use loupe_backend.Platform.Upstream.{
  Reply, Fetched, blocked, raised, unreachable, response, contains, judge, attempt,
}

abbrev pub is_raised : {J : Type 0} → Fetched J → Bool
is_raised raised = true
is_raised _ = false

abbrev pub is_blocked : {J : Type 0} → Fetched J → Bool
is_blocked (blocked r) = true
is_blocked _ = false

-- What one call did to the breaker: nothing, one more failure, or a close.
abbrev pub Accounted : {J : Type 0} → Breaker → Fetched J → Breaker → ℕ → Type 0
Accounted b v b' later =
    ((is_blocked v ≡ true) × (b' ≡ b))
    ⊎ (((is_raised v ≡ true) × (b'.failures ≡ b.failures + 1))
        ⊎ ((is_raised v ≡ false)
            × (is_blocked v ≡ false)
            × (b'.failures ≡ 0)
            × (b'.opened_at ≡ none)
            × ((enter b' later).0 ≡ calling)))

module _ {J : Type 0} (raises : ℕ → Bool) (not_found_ok : Bool) (extra_ok_statuses : List ℕ) where
  -- The breaker's account of one call, for every reply: a call that the breaker refuses changes
  -- nothing; one that raises is one more failure; and any other closes the breaker, clears its count
  -- and lets the next caller through.
  pub attempt-Accounted :
      (b : Breaker) (now : ℕ) (reply : Reply J) (later : ℕ)
      → let (v, b') = attempt raises not_found_ok extra_ok_statuses b now reply later in
        Accounted b v b' later
  unfolding attempt judge enter leave
  attempt-Accounted b now unreachable later = ground arith
  attempt-Accounted b now (response s none) later = ground arith
  attempt-Accounted b now (response s (some j)) later = ground arith

  -- An answer that the caller declared to be a clean miss, a 404 with `not_found_ok` or a listed
  -- status, never counts as a failure, whatever httpx makes of its status.
  pub attempt_expected :
      (b : Breaker) (now s : ℕ) (body : Option J) (later : ℕ)
      → (not_found_ok && s == 404 || contains s extra_ok_statuses) ≡ true
      → is_raised (attempt raises not_found_ok extra_ok_statuses b now (response s body) later).0
        ≡ false
  unfolding attempt judge enter leave
  attempt_expected b now s body later h = ground arith
