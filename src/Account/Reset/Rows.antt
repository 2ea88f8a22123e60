-- ===== src/Account/Reset/Rows.antt =====
-- The rows of users that a reset and a session look up (password_reset_service.py, dependencies.py).
use loupe_backend.Prelude.{
  ℕ, suc, ◌≡◌, refl, subst, inl, inr, Bool, true, false, some, List, [], ◌∷◌, arith, ◌==◌,
  if◌then◌else◌, ==_iff, Bool-cases,
}
use loupe_backend.Account.Login.{User}
use loupe_backend.Account.Reset.{
  Performed, raised, performed, find_user, save, Claims, Session, signed_in, resolve_user, admit,
  version,
}

abbrev pub is_performed : Performed → Bool
is_performed (raised e) = false
is_performed (performed u) = true

abbrev pub is_signed_in : Session → Bool
is_signed_in (signed_in u) = true
is_signed_in _ = false

pub find_user-save :
    (i : ℕ) (u v : User) (us : List User)
    → find_user v.id us ≡ some u
    → find_user i (save v us) ≡ (if v.id == i then some v else find_user i us)
unfolding find_user save
find_user-save i u v [] h = cc
find_user-save i u v (w ∷ us) h = ground (arith, find_user-save i u v us)

pub found_user : (i : ℕ) (us : List User) (u : User) → find_user i us ≡ some u → u.id ≡ i
unfolding find_user
found_user i [] u h = cc
found_user i (v ∷ us) u h = ground (arith, found_user i us u)

admit_signed :
    (u : User) (c : Claims) (r : Bool)
    → is_signed_in (admit (some u) c r) ≡ true
    → version c.ver ≡ u.token_version
admit_signed u c r h = ground (arith, h, ==_iff (version c.ver) u.token_version)

resolve_user_found :
    (us : List User) (c : Claims) (r : Bool) (i : ℕ) (u : User)
    → c.sub ≡ some i
    → find_user i us ≡ some u
    → resolve_user us (some c) r ≡ admit (some u) c r
unfolding resolve_user
resolve_user_found us c r i u e f = rw (e, f) refl

pub resolve_user_same :
    (us later : List User) (c : Claims) (r : Bool) (i : ℕ)
    → c.sub ≡ some i
    → find_user i us ≡ find_user i later
    → resolve_user us (some c) r ≡ resolve_user later (some c) r
unfolding resolve_user
resolve_user_same us later c r i e f = rw (e, f) refl

-- Who is signed in has the version of the claims.
signed_version :
    (us : List User) (c : Claims) (r : Bool) (i : ℕ) (u : User)
    → c.sub ≡ some i
    → find_user i us ≡ some u
    → is_signed_in (resolve_user us (some c) r) ≡ true
    → version c.ver ≡ u.token_version
signed_version us c r i u e f h =
    admit_signed u c r (subst (λ s. is_signed_in s ≡ true) (resolve_user_found us c r i u e f) h)

pub ends :
    (us later : List User) (c : Claims) (r : Bool) (i : ℕ) (u v : User)
    → c.sub ≡ some i
    → find_user i us ≡ some u
    → find_user i later ≡ some v
    → is_signed_in (resolve_user us (some c) r) ≡ true
    → v.token_version ≡ suc u.token_version
    → is_signed_in (resolve_user later (some c) r) ≡ false
ends us later c r i u v e f g h n =
    elim (Bool-cases (is_signed_in (resolve_user later (some c) r))) [
      | inr out ↦ out
      | inl still ↦
          ground (arith, signed_version us c r i u e f h, signed_version later c r i v e g still, n)
    ]
