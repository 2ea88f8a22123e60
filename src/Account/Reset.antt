-- ===== src/Account/Reset.antt =====
-- The forgot-password flow (app/services/auth/password_reset_service.py) and the check of a session's
-- token (app/auth/dependencies.py). The keyed MAC, the digest of a password hash and the password
-- hashing are third-party code: `mac`, `compare_digest`, `digest` and `hash_password` are parameters.
pub mod Rows
pub mod OneUse
mod Tests
use loupe_backend.Prelude.{
  ℕ, suc, ◌+◌, String, Bool, ◌||◌, Option, none, some, List, [], ◌∷◌, str_eq, ltb, ◌==◌,
  if◌then◌else◌,
}
use loupe_backend.Account.Login.{User}

-- What a signature covers: the id, the expiry and the fingerprint.
pub record Message : Type 0 where
  pub user_id : ℕ
  pub expires : ℕ
  pub token_version : ℕ
  pub fingerprint : String

pub record Token (S : Type 0) : Type 0 where
  pub uid : ℕ
  pub expires_ts : ℕ
  pub sig : S

pub data ResetTokenError : Type 0 where
  malformed expired unknown_user bad_signature : ResetTokenError

-- The e-mails of the flow; a link carries its token.
pub data Mail (S : Type 0) : Type 0 where
  reset_unavailable password_changed : ℕ → Mail S
  password_reset : ℕ → Token S → Mail S

pub data Performed : Type 0 where
  raised : ResetTokenError → Performed
  performed : User → Performed

abbrev pub reset_ttl_seconds : ℕ
reset_ttl_seconds = 1800

unfoldable pub find_user : ℕ → List User → Option User
find_user i [] = none
find_user i (u ∷ us) = if u.id == i then some u else find_user i us

unfoldable pub save : User → List User → List User
save u [] = []
save u (v ∷ vs) = if v.id == u.id then u ∷ vs else v ∷ save u vs

abbrev pub text_of : Option String → String
text_of none = ""
text_of (some s) = s

module _ {S : Type 0} (mac : Message → S) (compare_digest : S → S → Bool)
    (digest hash_password : String → String) where
  -- `_sign`
  abbrev pub message : User → ℕ → Message
  message u expires = record {
    user_id = u.id;
    expires = expires;
    token_version = u.token_version;
    fingerprint = digest (text_of u.password_hash);
  }

  unfoldable pub sign : User → ℕ → S
  sign u expires = mac (message u expires)

  unfoldable pub mint_token : User → ℕ → Token S
  unfolding sign
  mint_token u now =
      let e = now + reset_ttl_seconds in record { uid = u.id; expires_ts = e; sig = sign u e }

  abbrev pub verified : Option User → Token S → Performed
  verified none t = raised unknown_user
  verified (some u) t =
      if u.deleted || u.banned
      then raised unknown_user
      else if compare_digest t.sig (sign u t.expires_ts)
      then performed u
      else raised bad_signature

  -- `_resolve`; a text that is no token is none.
  unfoldable pub resolve : List User → Option (Token S) → ℕ → Performed
  unfolding sign find_user
  resolve us none now = raised malformed
  resolve us (some t) now =
      if ltb t.expires_ts now then raised expired else verified (find_user t.uid us) t

  abbrev pub reset_row : User → String → User
  reset_row u new = record u {
    password_hash = some (hash_password new);
    token_version = suc u.token_version;
  }

  abbrev pub perform_on : Performed → List User → String → Performed × List User × List (Mail S)
  perform_on (raised e) us new = (raised e, us, [])
  perform_on (performed u) us new =
      (performed (reset_row u new), save (reset_row u new) us, password_changed u.id ∷ [])

  unfoldable pub perform_reset :
      List User → Option (Token S) → String → ℕ → Performed × List User × List (Mail S)
  unfolding resolve save
  perform_reset us t new now = perform_on (resolve us t now) us new

  -- `request_reset`, on the user that has the address.
  unfoldable pub request_reset : Option User → ℕ → List (Mail S)
  unfolding mint_token
  request_reset none now = []
  request_reset (some u) now =
      if u.deleted || u.banned
      then []
      else if str_eq (text_of u.password_hash) ""
      then reset_unavailable u.id ∷ []
      else password_reset u.id (mint_token u now) ∷ []

-- The claims of an access token that verified: the subject, none when it is malformed, and the version.
pub record Claims : Type 0 where
  pub sub : Option ℕ
  pub ver : Option ℕ

pub data Session : Type 0 where
  anonymous unauthorized suspended : Session
  signed_in : User → Session

abbrev pub version : Option ℕ → ℕ
version none = 0
version (some v) = v

abbrev pub refuse : Bool → Session → Session
refuse required s = if required then s else anonymous

abbrev pub admit : Option User → Claims → Bool → Session
admit none c required = refuse required unauthorized
admit (some u) c required =
    if u.deleted
    then refuse required unauthorized
    else if u.banned
    then refuse required suspended
    else if version c.ver == u.token_version
    then signed_in u
    else refuse required unauthorized

abbrev pub subject : Option ℕ → List User → Claims → Bool → Session
subject none us c required = refuse required unauthorized
subject (some i) us c required = admit (find_user i us) c required

-- `_resolve_user`; without credentials, or with a token that does not verify, there are no claims.
unfoldable pub resolve_user : List User → Option Claims → Bool → Session
unfolding find_user
resolve_user us none required = refuse required unauthorized
resolve_user us (some c) required = subject c.sub us c required
