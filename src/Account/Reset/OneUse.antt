-- ===== src/Account/Reset/OneUse.antt =====
-- A reset link works once and ends the sessions (password_reset_service.py, dependencies.py).
use loupe_backend.Prelude.{
  ℕ, ◌+◌, ◌<◌, String, ◌≡◌, refl, subst, inl, inr, Bool, true, false, not, Option, none, some, List,
  arith, ltb, leb, ◌==◌, if◌then◌else◌, ==_iff, Bool-cases,
}
use loupe_backend.Account.Login.{User}
use loupe_backend.Account.Reset.{
  Message, Token, expired, Performed, raised, performed, find_user, save, message, sign, mint_token,
  reset_ttl_seconds, verified, resolve, reset_row, perform_on, perform_reset, Claims, resolve_user,
}
use loupe_backend.Account.Reset.Rows.{
  ends, find_user-save, found_user, is_performed, is_signed_in, resolve_user_same,
}

module _ {S : Type 0} (mac : Message → S) (compare_digest : S → S → Bool)
    (digest hash_password : String → String) where
  abbrev outcome_of : List User → Token S → String → ℕ → Performed × List User
  outcome_of us t new now =
      let r = perform_reset mac compare_digest digest hash_password us (some t) new now in
      (r.0, r.1)

  -- What a reset that was performed has found and done.
  record Done (us : List User) (t : Token S) (new : String) (now : ℕ) : Type 0 where
    row : User
    found : find_user t.uid us ≡ some row
    signed :
        compare_digest t.sig (sign mac compare_digest digest hash_password row t.expires_ts) ≡ true
    written :
        (outcome_of us t new now).1
        ≡ save (reset_row mac compare_digest digest hash_password row new) us

  is_performed-perform_on :
      (p : Performed) (us : List User) (new : String)
      → is_performed (perform_on mac compare_digest digest hash_password p us new).0
        ≡ is_performed p
  is_performed-perform_on (raised e) us new = refl
  is_performed-perform_on (performed u) us new = refl

  verified_row :
      (o : Option User) (t : Token S)
      → is_performed (verified mac compare_digest digest hash_password o t) ≡ true
      → (u : User) × (o ≡ some u)
        × (compare_digest t.sig (sign mac compare_digest digest hash_password u t.expires_ts)
            ≡ true)
        × (verified mac compare_digest digest hash_password o t ≡ performed u)
  verified_row none t h = cc
  verified_row (some u) t h = (u, refl, ground (arith, h), ground (arith, h))

  resolved :
      (us : List User) (t : Token S) (now : ℕ)
      → is_performed (resolve mac compare_digest digest hash_password us (some t) now) ≡ true
      → resolve mac compare_digest digest hash_password us (some t) now
        ≡ verified mac compare_digest digest hash_password (find_user t.uid us) t
  unfolding resolve
  resolved us t now h = elim (Bool-cases (ltb t.expires_ts now)) [
    | inl late ↦ (let bad : false ≡ true = ground (arith, h, late) in cc)
    | inr early ↦ rw early refl
  ]

  done_of :
      (us : List User) (t : Token S) (new : String) (now : ℕ)
      → is_performed (outcome_of us t new now).0 ≡ true
      → Done us t new now
  unfolding perform_reset
  done_of us t new now h =
      let p = resolve mac compare_digest digest hash_password us (some t) now in
      let good : is_performed p ≡ true = rw (← is_performed-perform_on p us new) h in
      let same = resolved us t now good in
      let (u, f, d, e) =
        verified_row (find_user t.uid us) t (subst (λ q. is_performed q ≡ true) same good) in
      record { row = u; found = f; signed = d; written = rw (same, e) refl }

  -- No reset link survives a change of the version: if no signature is that of two messages with
  -- different versions, a link that resets a password once is refused, at any time, on every table
  -- in which the user's version is another one.
  pub link_dies :
      ((s : S) (m n : Message)
        → compare_digest s (mac m) ≡ true
        → compare_digest s (mac n) ≡ true
        → m.token_version ≡ n.token_version)
      → (us later : List User) (t : Token S) (new again : String) (now then_ : ℕ) (u w : User)
      → is_performed (perform_reset mac compare_digest digest hash_password us (some t) new now).0
        ≡ true
      → find_user t.uid us ≡ some u
      → find_user t.uid later ≡ some w
      → u.token_version < w.token_version
      → is_performed
          (perform_reset mac compare_digest digest hash_password later (some t) again then_).0
        ≡ false
  unfolding sign
  link_dies apart us later t new again now then_ u w h f g older =
      elim (Bool-cases (is_performed (outcome_of later t again then_).0)) [
        | inr dead ↦ dead
        | inl again' ↦
            (let a = done_of us t new now h in
              let b = done_of later t again then_ again' in
              let u_is : a.row ≡ u = ground (arith, a.found, f) in
              let w_is : b.row ≡ w = ground (arith, b.found, g) in
              let same = apart t.sig _ _ a.signed b.signed in
              let bad : u.token_version ≡ w.token_version = rw (← u_is, ← w_is) same in
              ground (arith, bad, older))
      ]

  -- A reset link works once: if no signature is that of two messages with different versions, a
  -- link that has reset a password is refused the second time, however soon and with whatever
  -- password.
  pub one_use :
      ((s : S) (m n : Message)
        → compare_digest s (mac m) ≡ true
        → compare_digest s (mac n) ≡ true
        → m.token_version ≡ n.token_version)
      → (us : List User) (t : Token S) (new again : String) (now then_ : ℕ)
      → is_performed (perform_reset mac compare_digest digest hash_password us (some t) new now).0
        ≡ true
      → let us' = (perform_reset mac compare_digest digest hash_password us (some t) new now).1 in
        is_performed
          (perform_reset mac compare_digest digest hash_password us' (some t) again then_).0
        ≡ false
  one_use apart us t new again now then_ h =
      let d = done_of us t new now h in
      let v = reset_row mac compare_digest digest hash_password d.row new in
      let id : d.row.id ≡ t.uid = found_user t.uid us d.row d.found in
      let there : find_user t.uid (save v us) ≡ some v =
        ground (arith, find_user-save t.uid d.row v us, d.found, id, ==_iff d.row.id t.uid) in
      rw d.written
        (link_dies apart us (save v us) t new again now then_ d.row v h d.found there (omega arith))

  -- A reset ends the user's sessions and no others: claims that signed a user in before it sign that user
  -- in after it if and only if it is another one.
  pub reset_ends_sessions :
      (us : List User) (t : Token S) (new : String) (now i : ℕ) (c : Claims) (r : Bool)
      → is_performed (perform_reset mac compare_digest digest hash_password us (some t) new now).0
        ≡ true
      → c.sub ≡ some i
      → is_signed_in (resolve_user us (some c) r) ≡ true
      → let us' = (perform_reset mac compare_digest digest hash_password us (some t) new now).1 in
        is_signed_in (resolve_user us' (some c) r) ≡ not (i == t.uid)
  reset_ends_sessions us t new now i c r h e signed =
      let d = done_of us t new now h in
      let v = reset_row mac compare_digest digest hash_password d.row new in
      let id : d.row.id ≡ t.uid = found_user t.uid us d.row d.found in
      rw d.written (elim (Bool-cases (i == t.uid)) [
        | inl mine ↦ rw mine (
            ends us (save v us) c r i d.row v e (ground (arith, d.found, mine, ==_iff i t.uid))
              (ground (
                arith,
                find_user-save i d.row v us,
                d.found,
                id,
                mine,
                ==_iff i t.uid,
                ==_iff d.row.id i,
              ))
              signed refl)
        | inr other ↦ rw other (
            subst (λ x. is_signed_in x ≡ true)
              (resolve_user_same us (save v us) c r i e (
                ground (
                  arith,
                  find_user-save i d.row v us,
                  d.found,
                  id,
                  other,
                  ==_iff i t.uid,
                  ==_iff d.row.id i,
                )))
              signed)
      ])

  -- A link that was just sent resets the password for half an hour, and then it has expired: for a live
  -- user of the table whose row has not changed since.
  pub minted_link_works :
      ((m : Message) → compare_digest (mac m) (mac m) ≡ true)
      → (us : List User) (u : User) (sent now : ℕ) (new : String) → find_user u.id us ≡ some u
      → u.deleted ≡ false
      → u.banned ≡ false
      → let t = mint_token mac compare_digest digest hash_password u sent in
        (perform_reset mac compare_digest digest hash_password us (some t) new now).0 ≡ (
          if leb now (sent + reset_ttl_seconds)
          then performed (reset_row mac compare_digest digest hash_password u new)
          else raised expired)
  unfolding perform_reset mint_token resolve sign
  minted_link_works eq us u sent now new row live free =
      elim (Bool-cases (leb now (sent + reset_ttl_seconds))) [
        | inl soon ↦
            (let on_time : ltb (sent + reset_ttl_seconds) now ≡ false = ground (arith, soon) in
              rw
                (
                  soon,
                  on_time,
                  row,
                  live,
                  free,
                  eq (message mac compare_digest digest hash_password u (sent + reset_ttl_seconds)),
                )
                refl)
        | inr late ↦
            (let past : ltb (sent + reset_ttl_seconds) now ≡ true = ground (arith, late) in
              rw (late, past) refl)
      ]
