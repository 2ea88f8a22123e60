-- ===== src/Account/Mfa.antt =====
-- The second factor (app/auth/mfa.py, app/services/auth/mfa_service.py, and the guard of the setup route in
-- app/routers/auth/auth.py). Encryption, TOTP, str.isdigit and password hashing are third-party code
-- and parameters.
pub mod Guard
mod Tests
use loupe_backend.Prelude.Text.{Text, strip, lower}
use loupe_backend.Prelude.{
  ℕ, String, Bool, true, false, ◌&&◌, not, Option, none, some, List, [], ◌∷◌, map, str_eq, ◌==◌,
  if◌then◌else◌,
}

-- A stored secret, by its prefix: `plain:`, `fernet:` or none.
pub data Sealed : Type 0 where
  plain fernet raw : String → Sealed

pub record User : Type 0 where
  pub mfa_secret : Option Sealed
  pub mfa_enabled : Bool
  pub mfa_backup_codes : Option (List String)
  pub mfa_enrolled_at : Option ℕ

-- What the code takes from elsewhere: whether a key is set, whether this is production, and the calls.
pub record Outside : Type 0 where
  pub has_key : Bool
  pub is_production : Bool
  pub encrypt : String → String
  pub decrypt : String → Option String
  pub totp : String → Text → ℕ → Bool
  pub isdigit : Text → Bool
  pub verify_password : Text → String → Bool
  pub hash_password : Text → String

-- Each request of the user, with the secret or codes that the server draws for it.
pub data Action : Type 0 where
  setup : String → Action
  enable : Text → List Text → Action
  disable_with : Text → Action
  login : Text → Action

-- `replace(c, "")`
unfoldable pub without : ℕ → Text → Text
without c [] = []
without c (d ∷ ds) = let rest = without c ds in if d == c then rest else d ∷ rest

abbrev pub is_empty : Text → Bool
is_empty [] = true
is_empty (c ∷ cs) = false

-- `hashes or []`
abbrev pub or_empty : Option (List String) → List String
or_empty none = []
or_empty (some hs) = hs

module _ (out : Outside) where
  -- none where it raises
  unfoldable pub seal_secret : String → Option Sealed
  seal_secret s =
      if out.has_key
      then some (fernet (out.encrypt s))
      else if out.is_production
      then none
      else some (plain s)

  unfoldable pub unseal_secret : Option Sealed → Option String
  unseal_secret none = none
  unseal_secret (some (plain s)) = some s
  unseal_secret (some (fernet s)) = if out.has_key then out.decrypt s else none
  unseal_secret (some (raw s)) = if str_eq s "" then none else some s

  unfoldable pub verify_code : Option String → Text → ℕ → Bool
  unfolding without strip
  verify_code none code now = false
  verify_code (some s) code now =
      let cleaned = without 45 (without 32 (strip code)) in
      not (str_eq s "") && not (is_empty code) && out.isdigit cleaned && out.totp s cleaned now

  -- The loop of `consume_backup_code`.
  unfoldable pub consume : Text → List String → Bool × List String
  consume cleaned [] = (false, [])
  consume cleaned (h ∷ hs) =
      let (matched, rest) = consume cleaned hs in
      if out.verify_password cleaned h then (true, hs) else (matched, h ∷ rest)

  unfoldable pub consume_backup_code : Option (List String) → Text → Bool × List String
  unfolding consume without strip lower
  consume_backup_code hashes code =
      if is_empty code
      then (false, or_empty hashes)
      else consume (without 32 (lower (strip code))) (or_empty hashes)

  -- A code from the app, or else a backup code, which is used up.
  unfoldable pub login_with : Bool → Bool × List String → User → Bool × User
  login_with true p u = (true, u)
  login_with false (true, rest) u = (true, record u { mfa_backup_codes = some rest })
  login_with false (false, rest) u = (false, u)

  unfoldable pub verify_login : User → Text → ℕ → Bool × User
  unfolding login_with
  verify_login u code now =
      login_with (verify_code (unseal_secret u.mfa_secret) code now)
        (consume_backup_code u.mfa_backup_codes code) u

  abbrev enrolled : Option Sealed → User → Bool × User
  enrolled none u = (false, u)
  enrolled (some s) u = (true, record u { mfa_secret = some s })

  -- `start_enrollment`
  unfoldable pub start_enrollment : User → String → Bool × User
  unfolding seal_secret
  start_enrollment u secret = enrolled (seal_secret secret) u

  -- `mfa_setup`, the route
  unfoldable pub mfa_setup : User → String → Bool × User
  unfolding start_enrollment
  mfa_setup u secret = if u.mfa_enabled then (false, u) else start_enrollment u secret

  -- `confirm_enrollment`
  unfoldable pub confirm_enrollment : User → Text → List Text → ℕ → Bool × User
  unfolding unseal_secret verify_code
  confirm_enrollment u code codes now =
      if u.mfa_enabled
      then (false, u)
      else if verify_code (unseal_secret u.mfa_secret) code now
      then (
        true,
        record u {
          mfa_backup_codes = some (map out.hash_password codes);
          mfa_enabled = true;
          mfa_enrolled_at = some now;
        },
      )
      else (false, u)

  unfoldable pub turn_off : Bool × User → Bool × User
  turn_off (false, u) = (false, u)
  turn_off (true, u) = (
    true,
    record u {
      mfa_enabled = false;
      mfa_secret = none;
      mfa_backup_codes = none;
      mfa_enrolled_at = none;
    },
  )

  -- `disable`; the Boolean tells whether the second factor came off.
  unfoldable pub disable : User → Text → ℕ → Bool × User
  unfolding turn_off
  disable u code now = if u.mfa_enabled then turn_off (verify_login u code now) else (false, u)

  unfoldable pub act : User → Action → ℕ → Bool × User
  act u (setup s) now = mfa_setup u s
  act u (enable code codes) now = confirm_enrollment u code codes now
  act u (disable_with code) now = disable u code now
  act u (login code) now = verify_login u code now

  unfoldable pub act_all : User → List (ℕ × Action) → User
  unfolding act
  act_all u [] = u
  act_all u ((t, a) ∷ ps) = act_all (act u a t).1 ps
