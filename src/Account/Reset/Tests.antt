-- ===== src/Account/Reset/Tests.antt =====
-- A forgotten password (password_reset_service.py).
use loupe_backend.Prelude.{
  ℕ, String, ◌≡◌, refl, Bool, true, false, none, some, List, [], ◌∷◌, arith, ◌==◌, ==_iff,
}
use loupe_backend.Account.Login.{User}
use loupe_backend.Account.Reset.{
  Message, Token, find_user, perform_reset, performed, mint_token, reset_row, Claims, resolve_user,
}
use loupe_backend.Account.Reset.OneUse.{link_dies, one_use, reset_ends_sessions, minted_link_works}
use loupe_backend.Account.Reset.Rows.{is_performed, is_signed_in}

abbrev user : ℕ → User
user i = record {
  id = i;
  password_hash = some "old";
  apple_subject = false;
  google_subject = false;
  token_version = 3;
  failed_login_count = 0;
  locked_until = none;
  deleted = false;
  banned = false;
}

abbrev users : List User
users = user 1 ∷ user 2 ∷ []

-- A MAC that is its message's version.
abbrev mac : Message → ℕ
mac m = m.token_version

abbrev same : ℕ → ℕ → Bool
same a b = a == b

abbrev digest : String → String
digest s = s

abbrev link : Token ℕ
link = record { uid = 2; expires_ts = 2000; sig = 3 }

apart :
    (s : ℕ) (m n : Message)
    → same s (mac m) ≡ true
    → same s (mac n) ≡ true
    → m.token_version ≡ n.token_version
apart s m n a b = ground (arith, a, b, ==_iff s m.token_version, ==_iff s n.token_version)

works : is_performed (perform_reset mac same digest digest users (some link) "new" 900).0 ≡ true
unfolding perform_reset
works = refl

row : find_user 2 users ≡ some (user 2)
unfolding find_user
row = refl

abbrev bumped : User
bumped = record (user 2) { token_version = 4 }

bumped_row : find_user 2 (bumped ∷ []) ≡ some bumped
unfolding find_user
bumped_row = refl

old_one_is_dead :
    is_performed (perform_reset mac same digest digest (bumped ∷ []) (some link) "again" 901).0
    ≡ false
old_one_is_dead =
    link_dies mac same digest digest apart users (bumped ∷ []) link "new" "again" 900 901 (user 2)
      bumped works row bumped_row (omega arith)

one_use_example :
    let us' = (perform_reset mac same digest digest users (some link) "new" 900).1 in
    is_performed (perform_reset mac same digest digest us' (some link) "again" 901).0 ≡ false
one_use_example = one_use mac same digest digest apart users link "new" "again" 900 901 works

abbrev claims : Claims
claims = record { sub = some 2; ver = some 3 }

signed : is_signed_in (resolve_user users (some claims) true) ≡ true
unfolding resolve_user
signed = refl

reset_ends_sessions_run :
    let us' = (perform_reset mac same digest digest users (some link) "new" 900).1 in
    is_signed_in (resolve_user us' (some claims) true) ≡ false
reset_ends_sessions_run =
    reset_ends_sessions mac same digest digest users link "new" 900 2 claims true works refl signed

reflexive : (m : Message) → same (mac m) (mac m) ≡ true
reflexive m = ground (arith, ==_iff m.token_version m.token_version)

first_row : find_user 1 users ≡ some (user 1)
unfolding find_user
first_row = refl

minted_link_works_run :
    (perform_reset mac same digest digest users
      (some (mint_token mac same digest digest (user 1) 100))
      "new"
      1900).0
    ≡ performed (reset_row mac same digest digest (user 1) "new")
minted_link_works_run =
    minted_link_works mac same digest digest reflexive users (user 1) 100 1900 "new" first_row refl
      refl
