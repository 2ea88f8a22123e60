-- ===== src/Account/Login.antt =====
-- Signing in with a password, and the lockout (app/services/auth/user_service.py). Password hashing
-- is third-party code: `verify_password`, `hash_password` and `needs_rehash` are parameters.
pub mod Lockout
mod Tests
use loupe_backend.Prelude.{
  ℕ, suc, ◌+◌, ◌-◌, String, Bool, true, false, ◌&&◌, ◌||◌, not, Option, none, some, List, [], ◌∷◌,
  ltb, leb, ◌==◌, if◌then◌else◌, is_some,
}

-- The columns of `users` that the code reads or writes; a time is a number of seconds.
pub record User : Type 0 where
  pub id : ℕ
  pub password_hash : Option String
  pub apple_subject : Bool
  pub google_subject : Bool
  pub token_version : ℕ
  pub failed_login_count : ℕ
  pub locked_until : Option ℕ
  pub deleted : Bool
  pub banned : Bool

pub record Limits : Type 0 where
  pub login_max_attempts : ℕ
  pub login_lockout_seconds : ℕ

-- What an attempt has found out before it writes. `wrong` and `right` keep the time that the attempt
-- read, and `right` whether it must store the password again.
pub data Verdict : Type 0 where
  denied sso_only : Verdict
  locked : ℕ → Verdict
  wrong : ℕ → Verdict
  right : ℕ → Option String → Verdict

-- What the caller gets: a user, None, or an error.
pub data Answer : Type 0 where
  accepted refused sso_account : Answer
  account_locked : ℕ → Answer

-- `locked_until is not None and locked_until > now`
unfoldable pub is_locked : Option ℕ → ℕ → Bool
is_locked none now = false
is_locked (some t) now = ltb now t

abbrev pub remaining : Option ℕ → ℕ → ℕ
remaining none now = 0
remaining (some t) now = t - now

-- The failure, counted by the database on a row that still exists, and the lock at the limit; the Boolean tells whether this
-- attempt locked the account, which is when the owner gets an e-mail.
unfoldable pub count_failure : Limits → User → ℕ → User × Bool
count_failure l u now =
    if leb l.login_max_attempts (suc u.failed_login_count)
    then (
      record u { failed_login_count = 0; locked_until = some (now + l.login_lockout_seconds) },
      true,
    )
    else (record u { failed_login_count = suc u.failed_login_count }, false)

-- The UPDATE of a success: its WHERE clause, then its values.
unfoldable pub clear_failures : User → ℕ → User
unfolding is_locked
clear_failures u now =
    if (not (u.failed_login_count == 0) || is_some u.locked_until)
      && not (is_locked u.locked_until now)
    then record u { failed_login_count = 0; locked_until = none }
    else u

abbrev pub rehash : Option String → User → User
rehash none u = u
rehash (some h) u = record u { password_hash = some h }

-- What an attempt writes, on the row as it stands by then.
unfoldable pub settle : Limits → User → Verdict → User × Bool
unfolding count_failure clear_failures
settle l u (wrong now) = count_failure l u now
settle l u (right now fresh) = (rehash fresh (clear_failures u now), false)
settle l u _ = (u, false)

-- Attempts that have read the row already, in the order in which they write: the row at the end, and
-- how many of them locked the account.
unfoldable pub settle_all : Limits → User → List Verdict → User × ℕ
unfolding settle
settle_all l u [] = (u, 0)
settle_all l u (v ∷ vs) =
    let (u', lock) = settle l u v in
    let (u'', n) = settle_all l u' vs in (u'', (if lock then suc n else n))

abbrev pub answer_of : Verdict → Answer
answer_of denied = refused
answer_of sso_only = sso_account
answer_of (locked r) = account_locked r
answer_of (wrong now) = refused
answer_of (right now fresh) = accepted

module _ (verify_password : String → String → Bool) (hash_password : String → String)
    (needs_rehash : String → Bool) where
  -- `authenticate_with_password` up to its writes, on the row that it read.
  abbrev pub check_password : String → User → String → ℕ → Verdict
  check_password h u password now =
      if verify_password password h
      then right now (if needs_rehash h then some (hash_password password) else none)
      else wrong now

  abbrev pub check_hash : Option String → User → String → ℕ → Verdict
  check_hash none u password now = if u.apple_subject || u.google_subject then sso_only else denied
  check_hash (some h) u password now =
      if is_locked u.locked_until now
      then locked (remaining u.locked_until now)
      else check_password h u password now

  unfoldable pub check : Option User → String → ℕ → Verdict
  unfolding is_locked
  check none password now = denied
  check (some u) password now = check_hash u.password_hash u password now

  -- `authenticate_with_password`, when nothing else writes the row meanwhile.
  unfoldable pub authenticate : Limits → User → String → ℕ → Answer × User × Bool
  unfolding check settle
  authenticate l u password now =
      let v = check (some u) password now in
      let (u', lock) = settle l u v in (answer_of v, u', lock)

  -- `change_password`: none when it raises.
  abbrev changed : Option String → User → String → String → Option User
  changed none u old new = none
  changed (some h) u old new =
      if verify_password old h
      then some (record u {
        password_hash = some (hash_password new);
        token_version = suc u.token_version;
      })
      else none

  unfoldable pub change_password : User → String → String → Option User
  change_password u old new = changed u.password_hash u old new

-- `bump_token_version`
unfoldable pub bump_token_version : User → User
bump_token_version u = record u { token_version = suc u.token_version }
