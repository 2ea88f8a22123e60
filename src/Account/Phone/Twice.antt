-- ===== src/Account/Phone/Twice.antt =====
-- What is stored is stored again as it is (app/utils/phone.py).
use loupe_backend.Prelude.{
  ℕ, ◌≡◌, refl, sym, ap, subst, ◌∙◌, Bool, true, false, [], ◌∷◌, arith, ==_iff, drop,
}
use loupe_backend.Prelude.Text.{Text}
use loupe_backend.Account.Phone.{
  Phone, number, plus, all_of, has_plus, contains, international, with_country, lstrip,
  unless_space, rstrip, kept, is_e164, checked, read, unless_blank, normalise,
}

abbrev text_of : Phone → Text
text_of (number t) = t
text_of _ = []

abbrev is_number : Phone → Bool
is_number (number t) = true
is_number _ = false

module _ (space digit : ℕ → Bool) (space_digit : (c : ℕ) → digit c ≡ true → space c ≡ false)
    (space_plus : space plus ≡ false) (digit_plus : digit plus ≡ false) where
  kept-lstrip : (s : Text) → kept space digit (lstrip space digit s) ≡ kept space digit s
  unfolding kept lstrip
  kept-lstrip [] = refl
  kept-lstrip (c ∷ cs) = ground (arith, kept-lstrip cs, space_digit c, space_plus, ==_iff c plus)

  kept-unless_space :
      (c : ℕ) (t : Text)
      → kept space digit (unless_space space digit c t) ≡ kept space digit (c ∷ t)
  unfolding kept
  kept-unless_space c [] = ground (arith, space_digit c, space_plus, ==_iff c plus)
  kept-unless_space c (d ∷ ds) = refl

  kept-cons :
      (c : ℕ) (s t : Text)
      → kept space digit s ≡ kept space digit t
      → kept space digit (c ∷ s) ≡ kept space digit (c ∷ t)
  unfolding kept
  kept-cons c s t e = rw e refl

  kept-rstrip : (s : Text) → kept space digit (rstrip space digit s) ≡ kept space digit s
  unfolding rstrip
  kept-rstrip [] = refl
  kept-rstrip (c ∷ cs) =
      kept-unless_space c (rstrip space digit cs) ∙ kept-cons c _ _ (kept-rstrip cs)

  unless_blank-kept :
      (s : Text) (t : Text)
      → kept space digit s ≡ t
      → is_number (read space digit t) ≡ true
      → unless_blank space digit s ≡ read space digit t
  unfolding kept read with_country
  unless_blank-kept [] t e ok = ground (arith, ok, ap (λ x. is_number (read space digit x)) e)
  unless_blank-kept (c ∷ cs) t e ok = ap (read space digit) e

  number-kept :
      (s u : Text)
      → unless_blank space digit s ≡ number u
      → read space digit (kept space digit s) ≡ number u
  number-kept [] u e = ground (arith, ap is_number e)
  number-kept (c ∷ cs) u e = e

  kept-strip :
      (raw : Text)
      → kept space digit (rstrip space digit (lstrip space digit raw)) ≡ kept space digit raw
  kept-strip raw = kept-rstrip (lstrip space digit raw) ∙ kept-lstrip raw

  pub read-kept :
      (raw t : Text)
      → normalise space digit raw ≡ number t
      → read space digit (kept space digit raw) ≡ number t
  unfolding normalise
  read-kept raw t e = ap (read space digit) (sym (kept-strip raw)) ∙ number-kept _ t e

  pub normalise-read :
      (raw s t : Text)
      → kept space digit raw ≡ s
      → read space digit s ≡ number t
      → normalise space digit raw ≡ number t
  unfolding normalise
  normalise-read raw s t same e =
      unless_blank-kept (rstrip space digit (lstrip space digit raw)) s (kept-strip raw ∙ same)
        (ap is_number e)
      ∙ e

  -- The number read depends on the digits and plus signs alone: texts with the same ones, whatever
  -- else stands between them, are the same number.
  pub normalise-kept :
      (raw other t : Text)
      → kept space digit raw ≡ kept space digit other
      → normalise space digit raw ≡ number t
      → normalise space digit other ≡ number t
  normalise-kept raw other t same e = normalise-read other _ t (sym same) (read-kept raw t e)

  checked-number :
      (x t : Text)
      → checked space digit x ≡ number t
      → (is_e164 space digit x ≡ true) × (all_of digit (drop 1 x) ≡ true) × (x ≡ t)
  checked-number x t e = ground (arith, ap is_number e, ap text_of e)

  pub kept-all_of : (s : Text) → all_of digit s ≡ true → kept space digit s ≡ s
  unfolding kept all_of
  kept-all_of [] ok = refl
  kept-all_of (c ∷ cs) ok = ground (arith, ok, kept-all_of cs)

  pub contains-all_of : (s : Text) → all_of digit s ≡ true → contains plus s ≡ false
  unfolding contains all_of
  contains-all_of [] ok = refl
  contains-all_of (c ∷ cs) ok =
      ground (arith, ok, contains-all_of cs, digit_plus, ap digit, ==_iff c plus)

  -- A number in the form it is stored in.
  abbrev IsStored : Text → Type 0
  IsStored t = (has_plus t ≡ true) × (all_of digit (drop 1 t) ≡ true)

  kept-IsStored : (t : Text) → IsStored t → kept space digit t ≡ t
  unfolding kept
  kept-IsStored [] ok = refl
  kept-IsStored (c ∷ cs) ok = ground (arith, ok, kept-all_of cs)

  read-IsStored : (t : Text) → IsStored t → read space digit t ≡ checked space digit t
  unfolding read with_country
  read-IsStored [] ok = ground (arith, ok)
  read-IsStored (c ∷ []) ok = ground (arith, ok, contains-all_of [])
  read-IsStored (c ∷ d ∷ ds) ok =
      let fine = contains-all_of (d ∷ ds) in ground (arith, ok, fine, ==_iff c plus, ==_iff c b'0')

  checked-read :
      (s t : Text)
      → read space digit s ≡ number t
      → checked space digit (with_country (international s)) ≡ number t
  unfolding read
  checked-read s t e = ground (arith, e, ap is_number e)

  has_plus-is_e164 : (t : Text) → is_e164 space digit t ≡ true → has_plus t ≡ true
  unfolding is_e164
  has_plus-is_e164 [] ok = ok
  has_plus-is_e164 (c ∷ cs) ok = ground (arith, ok)

  -- A number that was normalised is left as it is when it is normalised again.
  pub normalise_twice :
      (raw t : Text) → normalise space digit raw ≡ number t → normalise space digit t ≡ number t
  normalise_twice raw t e =
      let checked_ = checked-read (kept space digit raw) t (read-kept raw t e) in
      let found = with_country (international (kept space digit raw)) in
      let (valid, digits, same) = checked-number found t checked_ in
      let stored : IsStored t = subst IsStored same (has_plus-is_e164 found valid, digits) in
      normalise-read t t t (kept-IsStored t stored)
        (read-IsStored t stored ∙ subst (λ x. checked space digit x ≡ number t) same checked_)
