-- ===== src/Account/Login/Tests.antt =====
-- A guesser at an account (user_service.py).
use loupe_backend.Prelude.{
  ℕ, ◌+◌, ◌*◌, ◌≤◌, ◌<◌, String, ◌≡◌, refl, Bool, false, none, some, List, [], ◌∷◌, arith, str_eq,
}
use loupe_backend.Account.Login.{
  User, Limits, Verdict, locked, wrong, right, settle, settle_all, check, authenticate, accepted,
  account_locked,
}
use loupe_backend.Account.Login.Lockout.{
  failures, settle_all-counts, HeldTo, settle_all-held, guesses, guesses-bounded,
}

abbrev user : User
user = record {
  id = 1;
  password_hash = some "secret";
  apple_subject = false;
  google_subject = false;
  token_version = 3;
  failed_login_count = 1;
  locked_until = none;
  deleted = false;
  banned = false;
}

abbrev limits : Limits
limits = record { login_max_attempts = 3; login_lockout_seconds = 900 }

-- Five failures at once.
abbrev burst : List Verdict
burst = wrong 10 ∷ wrong 10 ∷ wrong 11 ∷ locked 889 ∷ wrong 10 ∷ wrong 12 ∷ []

settle_all-counts_run :
    let (u', locks) = settle_all limits user burst in
    (1 + failures burst ≡ u'.failed_login_count + locks * 3) × (u'.failed_login_count < 3)
settle_all-counts_run = settle_all-counts limits user burst (omega arith) tt

burst_locks_twice : (settle_all limits user burst).1 ≡ 2
unfolding settle_all
burst_locks_twice = refl

settle_all-held_run :
    HeldTo 910
      (settle_all limits
        (record user { locked_until = some 910 })
        (right 9 (some "upgraded") ∷ wrong 12 ∷ right 11 none ∷ [])).0.locked_until
settle_all-held_run =
    settle_all-held limits (record user { locked_until = some 910 }) 910
      (right 9 (some "upgraded") ∷ wrong 12 ∷ right 11 none ∷ []) (omega arith)
      (omega arith, (omega arith, (omega arith, tt)))

abbrev verify : String → String → Bool
verify p h = str_eq p h

abbrev hash : String → String
hash p = p

abbrev never : String → Bool
never h = false

abbrev tries : List (ℕ × String)
tries = (10, "a") ∷ (11, "b") ∷ (12, "c") ∷ (13, "d") ∷ []

guesses-bounded_example : guesses verify hash never limits user tries + 1 ≤ 3
guesses-bounded_example =
    guesses-bounded verify hash never limits user 10 "secret" tries refl (omega arith)
      (
        (omega arith, omega arith),
        (
          (omega arith, omega arith),
          ((omega arith, omega arith), ((omega arith, omega arith), tt)),
        ),
      )
      (refl, (refl, (refl, (refl, tt))))

-- Two are compared, the others refused; the owner gets in before, and not after.
two_compared : guesses verify hash never limits user tries ≡ 2
unfolding guesses check settle
two_compared = refl

owner_enters : (authenticate verify hash never limits user "secret" 10).0 ≡ accepted
unfolding authenticate check settle
owner_enters = refl

owner_waits :
    (authenticate verify hash never limits (settle_all limits user burst).0 "secret" 20).0
    ≡ account_locked 892
unfolding authenticate check settle_all
owner_waits = refl
