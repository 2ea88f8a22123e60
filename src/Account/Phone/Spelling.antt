-- ===== src/Account/Phone/Spelling.antt =====
-- Four ways to write a national number (app/utils/phone.py).
use loupe_backend.Prelude.{ℕ, ◌≤◌, ◌≡◌, Bool, true, false, ◌∷◌, arith, length}
use loupe_backend.Prelude.Text.{Text}
use loupe_backend.Account.Phone.{
  number, plus, all_of, contains, with_country, kept, is_e164, checked, read, normalise,
}
use loupe_backend.Account.Phone.Twice.{contains-all_of, normalise-read}

-- Four ways to write a number: as it is dialled at home, with the trunk prefix, with the country's code,
-- and as it is dialled from abroad.
pub data Style : Type 0 where
  national trunk code abroad : Style

unfoldable pub written : Style → Text → Text
written national d = d
written trunk d = b'1' ∷ d
written code d = plus ∷ b'1' ∷ d
written abroad d = b'0' ∷ b'0' ∷ b'1' ∷ d

module _ (space digit : ℕ → Bool) (space_digit : (c : ℕ) → digit c ≡ true → space c ≡ false)
    (space_plus : space plus ≡ false) (digit_plus : digit plus ≡ false)
    (digit_one : digit b'1' ≡ true) where
  checked-national :
      (c d : ℕ) (ds : Text)
      → length ds ≡ 8
      → all_of digit (c ∷ d ∷ ds) ≡ true
      → checked space digit (plus ∷ b'1' ∷ c ∷ d ∷ ds) ≡ number (plus ∷ b'1' ∷ c ∷ d ∷ ds)
  unfolding is_e164 all_of
  checked-national c d ds size ok = ground (arith, size, ok, digit_one)

  read-written :
      (s : Style) (c d : ℕ) (ds : Text)
      → b'2' ≤ c
      → length ds ≡ 8
      → all_of digit (c ∷ d ∷ ds) ≡ true
      → read space digit (written s (c ∷ d ∷ ds)) ≡ number (plus ∷ b'1' ∷ c ∷ d ∷ ds)
  unfolding written read with_country contains
  read-written s c d ds first size ok =
      let stored = checked-national c d ds size ok in
      let fine = contains-all_of space digit space_digit space_plus digit_plus (c ∷ d ∷ ds) ok in
      elim s [
        | national ↦ ground (arith, first, size, stored, fine)
        | trunk ↦ ground (arith, first, size, stored, fine)
        | code ↦ ground (arith, first, size, stored, fine)
        | abroad ↦ ground (arith, first, size, stored, fine)
      ]

  -- A number of ten digits, the first of them 2 or more, is stored as +1 and these digits as they are typed,
  -- whether it is written as such, with 1, with +1 or with 001 before it, and whatever stands between the
  -- digits that the pattern drops. The digits of another script stay as typed, so that they give another text.
  -- The classes of spaces and digits are parameters; digits are no spaces, + is neither, and 1 is a digit.
  pub normalise-written :
      (raw : Text) (s : Style) (c d : ℕ) (ds : Text)
      → b'2' ≤ c
      → length ds ≡ 8
      → all_of digit (c ∷ d ∷ ds) ≡ true
      → kept space digit raw ≡ written s (c ∷ d ∷ ds)
      → normalise space digit raw ≡ number (plus ∷ b'1' ∷ c ∷ d ∷ ds)
  normalise-written raw s c d ds first size ok spelled =
      normalise-read space digit space_digit space_plus digit_plus raw (written s (c ∷ d ∷ ds))
        (plus ∷ b'1' ∷ c ∷ d ∷ ds) spelled (read-written s c d ds first size ok)
