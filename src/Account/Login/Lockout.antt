-- ===== src/Account/Login/Lockout.antt =====
-- What the lockout promises (user_service.py, `authenticate_with_password`).
use loupe_backend.Prelude.{
  ℕ, suc, ◌+◌, ◌*◌, ◌≤◌, ◌<◌, String, ◌≡◌, refl, inl, inr, Bool, true, false, Option, none, some,
  List, [], ◌∷◌, arith, leb, if◌then◌else◌, Bool-cases, All,
}
use loupe_backend.Account.Login.{
  User, Limits, Verdict, denied, sso_only, locked, wrong, right, is_locked, count_failure,
  clear_failures, settle, settle_all, check, remaining,
}

unfoldable pub failures : List Verdict → ℕ
failures [] = 0
failures (v ∷ vs) = elim v [
  | wrong now ↦ suc (failures vs)
  | right now fresh ↦ failures vs
  | denied ↦ failures vs
  | sso_only ↦ failures vs
  | locked r ↦ failures vs
]

-- No attempt is a success.
abbrev pub NoSuccess : List Verdict → Type 0
NoSuccess [] = Unit
NoSuccess (right now fresh ∷ vs) = true ≡ false
NoSuccess (_ ∷ vs) = NoSuccess vs

-- Every failure counts exactly once, however many attempts overlap: without a success, the failures
-- and the count at the start make up the count at the end and `login_max_attempts` for each lock;
-- and the count stays below that limit.
pub settle_all-counts :
    (l : Limits) (u : User) (vs : List Verdict)
    → u.failed_login_count < l.login_max_attempts
    → NoSuccess vs
    → let (u', locks) = settle_all l u vs in
      (u.failed_login_count + failures vs ≡ u'.failed_login_count + locks * l.login_max_attempts)
      × (u'.failed_login_count < l.login_max_attempts)
unfolding settle_all failures settle count_failure
settle_all-counts l u [] b q = (omega arith, b)
settle_all-counts l u (denied ∷ vs) b q = settle_all-counts l u vs b q
settle_all-counts l u (sso_only ∷ vs) b q = settle_all-counts l u vs b q
settle_all-counts l u (locked r ∷ vs) b q = settle_all-counts l u vs b q
settle_all-counts l u (right now fresh ∷ vs) b q = cc
settle_all-counts l u (wrong now ∷ vs) b q =
    elim (Bool-cases (leb l.login_max_attempts (suc u.failed_login_count))) [
      | inl full ↦
          (let u' = record u {
            failed_login_count = 0;
            locked_until = some (now + l.login_lockout_seconds);
          } in
            let (sum, below) = settle_all-counts l u' vs (omega (arith, b)) q in
            rw full (ground (arith, sum, full, b), below))
      | inr room ↦
          (let u' = record u { failed_login_count = suc u.failed_login_count } in
            let (sum, below) = settle_all-counts l u' vs (ground (arith, room)) q in
            rw room (omega (arith, sum), below))
    ]

-- A verdict reached at such a time, that a lock until `t` is not shorter than.
abbrev pub Raced : Limits → ℕ → Verdict → Type 0
Raced l t (wrong now) = t ≤ now + l.login_lockout_seconds
Raced l t (right now fresh) = now < t
Raced l t _ = Unit

abbrev pub HeldTo : ℕ → Option ℕ → Type 0
HeldTo t none = true ≡ false
HeldTo t (some u) = t ≤ u

locked_then : (o : Option ℕ) (t now : ℕ) → HeldTo t o → now < t → is_locked o now ≡ true
unfolding is_locked
locked_then none t now h r = cc
locked_then (some u) t now h r = ground (arith, h, r)

clear_failures_locked :
    (u : User) (t now : ℕ) → HeldTo t u.locked_until → now < t → clear_failures u now ≡ u
unfolding clear_failures
clear_failures_locked u t now h r = rw (locked_then u.locked_until t now h r) (ground arith)

settle-held :
    (l : Limits) (u : User) (t : ℕ) (v : Verdict)
    → HeldTo t u.locked_until
    → Raced l t v
    → HeldTo t (settle l u v).0.locked_until
unfolding settle count_failure clear_failures is_locked
settle-held l u t denied h r = h
settle-held l u t sso_only h r = h
settle-held l u t (locked s) h r = h
settle-held l u t (wrong now) h r =
    elim (Bool-cases (leb l.login_max_attempts (suc u.failed_login_count))) [
      | inl full ↦ rw full r
      | inr room ↦ rw room h
    ]
settle-held l u t (right now none) h r = rw (clear_failures_locked u t now h r) h
settle-held l u t (right now (some k)) h r = rw (clear_failures_locked u t now h r) h

-- A lock is not undone by the attempts it raced: whatever attempts were under way when the account was
-- locked until `t`, successes included, the account is still locked until `t` or later once all
-- of them have written, if the successes began before `t` and a lock by any of the failures would
-- last until `t` too.
pub settle_all-held :
    (l : Limits) (u : User) (t : ℕ) (vs : List Verdict)
    → HeldTo t u.locked_until
    → All (Raced l t) vs
    → HeldTo t (settle_all l u vs).0.locked_until
unfolding settle_all
settle_all-held l u t [] h r = h
settle_all-held l u t (v ∷ vs) h r =
    settle_all-held l (settle l u v).0 t vs (settle-held l u t v h r.0) r.1

upper :
    (a b : ℕ) (ps : List (ℕ × String)) → All (λ p. (a ≤ p.0) × (p.0 < b)) ps → All (λ p. p.0 < b) ps
upper a b [] h = tt
upper a b (p ∷ ps) h = (h.0.1, upper a b ps h.1)

-- An attempt that got its password compared.
abbrev pub is_guess : Verdict → Bool
is_guess (wrong now) = true
is_guess (right now fresh) = true
is_guess _ = false

module _ (verify_password : String → String → Bool) (hash_password : String → String)
    (needs_rehash : String → Bool) where
  -- How many of these attempts, one after the other, get their password compared.
  unfoldable pub guesses : Limits → User → List (ℕ × String) → ℕ
  guesses l u [] = 0
  guesses l u ((t, p) ∷ ps) =
      let v = check verify_password hash_password needs_rehash (some u) p t in
      let n = guesses l (settle l u v).0 ps in if is_guess v then suc n else n

  check_locked :
      (u : User) (h p : String) (t : ℕ)
      → u.password_hash ≡ some h
      → is_locked u.locked_until t ≡ true
      → check verify_password hash_password needs_rehash (some u) p t
        ≡ locked (remaining u.locked_until t)
  unfolding check
  check_locked u h p t s k = rw (s, k) refl

  check_wrong :
      (u : User) (h p : String) (t : ℕ)
      → u.password_hash ≡ some h
      → is_locked u.locked_until t ≡ false
      → verify_password p h ≡ false
      → check verify_password hash_password needs_rehash (some u) p t ≡ wrong t
  unfolding check
  check_wrong u h p t s k w = rw (s, k, w) refl

  no_guesses :
      (l : Limits) (u : User) (end_ : ℕ) (h : String) (ps : List (ℕ × String))
      → u.password_hash ≡ some h
      → HeldTo end_ u.locked_until
      → All (λ a. a.0 < end_) ps
      → guesses l u ps ≡ 0
  unfolding guesses settle
  no_guesses l u e h [] s held ts = refl
  no_guesses l u e h ((t, p) ∷ ps) s held ts =
      let lock : check verify_password hash_password needs_rehash (some u) p t
          ≡ locked (remaining u.locked_until t) =
        check_locked u h p t s (locked_then u.locked_until e t held ts.0) in
      rw lock (no_guesses l u e h ps s held ts.1)

  -- A guesser is held to `login_max_attempts` tries in any `login_lockout_seconds`: of wrong
  -- passwords tried one after the other within such a span, on an account whose count is below the
  -- limit, and with nothing else writing its row, at most what the count leaves of that limit are
  -- compared at all.
  pub guesses-bounded :
      (l : Limits) (u : User) (from : ℕ) (h : String) (ps : List (ℕ × String))
      → u.password_hash ≡ some h
      → u.failed_login_count < l.login_max_attempts
      → All (λ a. (from ≤ a.0) × (a.0 < from + l.login_lockout_seconds)) ps
      → All (λ a. verify_password a.1 h ≡ false) ps
      → guesses l u ps + u.failed_login_count ≤ l.login_max_attempts
  unfolding guesses settle count_failure
  guesses-bounded l u from h [] s b ts ws = omega (arith, b)
  guesses-bounded l u from h ((t, p) ∷ ps) s b ts ws =
      elim (Bool-cases (is_locked u.locked_until t)) [
        | inl k ↦ rw (check_locked u h p t s k) (guesses-bounded l u from h ps s b ts.1 ws.1)
        | inr k ↦
            rw (check_wrong u h p t s k ws.0)
              (elim (Bool-cases (leb l.login_max_attempts (suc u.failed_login_count))) [
                | inl full ↦
                    (let u' = record u {
                      failed_login_count = 0;
                      locked_until = some (t + l.login_lockout_seconds);
                    } in
                      let none_ =
                        no_guesses l u' (from + l.login_lockout_seconds) h ps s
                          (omega (arith, ts.0.0))
                          (upper from (from + l.login_lockout_seconds) ps ts.1) in
                      rw full (omega (arith, none_, b)))
                | inr room ↦
                    (let u' = record u { failed_login_count = suc u.failed_login_count } in
                      rw room (
                        omega (
                          arith,
                          guesses-bounded l u' from h ps s (ground (arith, room)) ts.1 ws.1,
                        )))
              ])
      ]
