-- ===== src/Account/Mfa/Guard.antt =====
-- What the second factor promises (mfa.py, mfa_service.py).
use loupe_backend.Prelude.Text.{Text, strip, lower}
use loupe_backend.Prelude.{
  ℕ, suc, ◌+◌, String, ◌≡◌, refl, inl, inr, Bool, true, false, ◌&&◌, not, Option, List, [], ◌∷◌,
  arith, if◌then◌else◌, Bool-cases, length, All,
}
use loupe_backend.Account.Mfa.{
  User, Outside, Action, setup, enable, disable_with, login, without, is_empty, or_empty,
  unseal_secret, verify_code, consume, consume_backup_code, verify_login, login_with, mfa_setup,
  confirm_enrollment, disable, act, act_all,
}

module _ (out : Outside) where
  -- The action carries no code that this user's sign-in accepts.
  abbrev pub Codeless : User → ℕ → Action → Type 0
  Codeless u t (setup s) = Unit
  Codeless u t (enable code codes) = Unit
  Codeless u t (disable_with code) = (verify_login out u code t).0 ≡ false
  Codeless u t (login code) = (verify_login out u code t).0 ≡ false

  login_with_fails :
      (e : Bool) (p : Bool × List String) (u : User)
      → (login_with out e p u).0 ≡ false
      → login_with out e p u ≡ (false, u)
  unfolding login_with
  login_with_fails true p u h = cc
  login_with_fails false (true, rest) u h = cc
  login_with_fails false (false, rest) u h = refl

  verify_login_fails :
      (u : User) (code : Text) (t : ℕ)
      → (verify_login out u code t).0 ≡ false
      → verify_login out u code t ≡ (false, u)
  unfolding verify_login
  verify_login_fails u code t h =
      login_with_fails (verify_code out (unseal_secret out u.mfa_secret) code t)
        (consume_backup_code out u.mfa_backup_codes code) u h

  act-Codeless :
      (u : User) (t : ℕ) (a : Action)
      → u.mfa_enabled ≡ true
      → Codeless u t a
      → (act out u a t).1 ≡ u
  unfolding act mfa_setup confirm_enrollment disable
  act-Codeless u t (setup s) on c = rw on refl
  act-Codeless u t (enable code codes) on c = rw on refl
  act-Codeless u t (disable_with code) on c = rw (verify_login_fails u code t c, on) refl
  act-Codeless u t (login code) on c = rw (verify_login_fails u code t c) refl

  -- Who has no valid code changes nothing: while the second factor is on, any sequence of setups,
  -- confirmations, sign-ins and attempts to turn it off whose codes are not accepted leaves the secret,
  -- the backup codes and the state of the user as they are.
  pub act_all-Codeless :
      (u : User) (ps : List (ℕ × Action))
      → u.mfa_enabled ≡ true
      → All (λ p. Codeless u p.0 p.1) ps
      → act_all out u ps ≡ u
  unfolding act_all
  act_all-Codeless u [] on c = refl
  act_all-Codeless u ((t, a) ∷ ps) on c =
      rw (act-Codeless u t a on c.0) (act_all-Codeless u ps on c.1)

  -- How many of these sign-ins, one after the other, are accepted by a backup code.
  unfoldable pub redeemed : User → List (ℕ × Text) → ℕ × User
  redeemed u [] = (0, u)
  redeemed u ((t, code) ∷ ps) =
      let (ok, u') = verify_login out u code t in
      let (n, u'') = redeemed u' ps in
      (
        (if ok && not (verify_code out (unseal_secret out u.mfa_secret) code t) then suc n else n),
        u'',
      )

  length-consume :
      (c : Text) (hs : List String)
      → let (matched, rest) = consume out c hs in
        length rest + (if matched then 1 else 0) ≡ length hs
  unfolding consume
  length-consume c [] = refl
  length-consume c (h ∷ hs) = ground (arith, length-consume c hs)

  length-consume_backup_code :
      (o : Option (List String)) (code : Text)
      → let (matched, rest) = consume_backup_code out o code in
        length rest + (if matched then 1 else 0) ≡ length (or_empty o)
  unfolding consume_backup_code
  length-consume_backup_code o code = elim (Bool-cases (is_empty code)) [
    | inl e ↦ rw e (omega arith)
    | inr e ↦ rw e (length-consume (without 32 (lower (strip code))) (or_empty o))
  ]

  length-login_with :
      (e : Bool) (p : Bool × List String) (u : User)
      → length p.1 + (if p.0 then 1 else 0) ≡ length (or_empty u.mfa_backup_codes)
      → let (ok, u') = login_with out e p u in
        (if ok && not e then 1 else 0) + length (or_empty u'.mfa_backup_codes)
        ≡ length (or_empty u.mfa_backup_codes)
  unfolding login_with
  length-login_with true p u h = omega arith
  length-login_with false (true, rest) u h = omega (arith, h)
  length-login_with false (false, rest) u h = omega arith

  -- A backup code is used up by the sign-in that it lets through: over any sign-ins, those that
  -- backup codes let through and the codes that are left add up to the codes at the start, however
  -- they mix with codes from the app and wrong ones.
  pub redeemed_once :
      (u : User) (ps : List (ℕ × Text))
      → let (n, u') = redeemed u ps in
        n + length (or_empty u'.mfa_backup_codes) ≡ length (or_empty u.mfa_backup_codes)
  unfolding redeemed verify_login
  redeemed_once u [] = omega arith
  redeemed_once u ((t, code) ∷ ps) =
      let e = verify_code out (unseal_secret out u.mfa_secret) code t in
      let p = consume_backup_code out u.mfa_backup_codes code in
      let (ok, u') = login_with out e p u in
      ground (
        arith,
        length-login_with e p u (length-consume_backup_code u.mfa_backup_codes code),
        redeemed_once u' ps,
      )
