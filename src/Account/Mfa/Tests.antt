-- ===== src/Account/Mfa/Tests.antt =====
-- A user with two backup codes (mfa.py, mfa_service.py).
use loupe_backend.Prelude.Text.{Text, text_eq}
use loupe_backend.Prelude.{
  ℕ, ◌+◌, ◌≡◌, refl, true, false, ◌&&◌, ◌||◌, some, List, [], ◌∷◌, str_eq, if◌then◌else◌, length,
}
use loupe_backend.Account.Mfa.{
  plain, User, Outside, setup, enable, disable_with, login, or_empty, verify_login, act_all,
  consume_backup_code, verify_code, unseal_secret,
}
use loupe_backend.Account.Mfa.Guard.{act_all-Codeless, redeemed, redeemed_once}

-- The app shows 7, and a code's hash is "a" or "b" for the codes 97 and 98.
abbrev out : Outside
out = record {
  has_key = false;
  is_production = false;
  encrypt = λ s. s;
  decrypt = λ s. some s;
  totp = λ s c t. text_eq c (55 ∷ []);
  isdigit = λ c. text_eq c (55 ∷ []);
  verify_password =
      λ c h. (text_eq c (97 ∷ []) && str_eq h "a") || (text_eq c (98 ∷ []) && str_eq h "b");
  hash_password = λ c. if text_eq c (97 ∷ []) then "a" else "b";
}

abbrev user : User
user = record {
  mfa_secret = some (plain "JBSW");
  mfa_enabled = true;
  mfa_backup_codes = some ("a" ∷ "b" ∷ []);
  mfa_enrolled_at = some 5;
}

wrong_code : (verify_login out user (56 ∷ []) 12).0 ≡ false
unfolding verify_login unseal_secret verify_code consume_backup_code text_eq
wrong_code = refl

act_all-Codeless_example :
    act_all out user (
      (10, setup "EVIL")
      ∷ (11, enable (55 ∷ []) [])
      ∷ (12, disable_with (56 ∷ []))
      ∷ (12, login (56 ∷ []))
      ∷ [])
    ≡ user
act_all-Codeless_example =
    act_all-Codeless out user
      ((10, setup "EVIL")
        ∷ (11, enable (55 ∷ []) [])
        ∷ (12, disable_with (56 ∷ []))
        ∷ (12, login (56 ∷ []))
        ∷ [])
      refl (tt, (tt, (wrong_code, (wrong_code, tt))))

-- The code 98 twice, the app's code between.
abbrev sign_ins : List (ℕ × Text)
sign_ins = (10, 66 ∷ 32 ∷ []) ∷ (11, 55 ∷ []) ∷ (12, 98 ∷ []) ∷ []

redeemed_once_run :
    let (n, u') = redeemed out user sign_ins in n + length (or_empty u'.mfa_backup_codes) ≡ 2
redeemed_once_run = redeemed_once out user sign_ins

one_redeemed : (redeemed out user sign_ins).0 ≡ 1
unfolding redeemed verify_login unseal_secret verify_code consume_backup_code text_eq
one_redeemed = refl
