-- ===== src/Account/Phone.antt =====
-- Phone numbers in E.164 (app/utils/phone.py). Python's two classes of characters that go past ASCII, the
-- spaces that `strip` removes and the digits that `\d` matches, are parameters.
pub mod Spelling
pub mod Twice
mod Tests
use loupe_backend.Prelude.{
  ℕ, ◌+◌, ◌-◌, Bool, true, false, ◌&&◌, ◌||◌, not, Option, none, some, [], ◌∷◌, ◌++◌, leb, ◌==◌,
  if◌then◌else◌, length, take, drop,
}
use loupe_backend.Prelude.Text.{Text}

pub data Phone : Type 0 where
  blank unlike wrong_length : Phone
  number : Text → Phone

abbrev pub plus : ℕ
plus = b'+'

unfoldable pub all_of : (ℕ → Bool) → Text → Bool
all_of f [] = true
all_of f (c ∷ cs) = f c && all_of f cs

-- `text.startswith("+")`
abbrev pub has_plus : Text → Bool
has_plus [] = false
has_plus (c ∷ cs) = c == plus

unfoldable pub contains : ℕ → Text → Bool
contains c [] = false
contains c (d ∷ ds) = d == c || contains c ds

-- "0044…" is written "+44…".
abbrev pub international : Text → Text
international (c ∷ d ∷ cs) = if c == b'0' && d == b'0' then plus ∷ cs else c ∷ d ∷ cs
international text = text

abbrev starts_with_one : Text → Bool
starts_with_one [] = false
starts_with_one (c ∷ cs) = c == b'1'

-- A number without a country code is of the default country.
unfoldable pub with_country : Text → Text
with_country text =
    if has_plus text
    then text
    else if length text == 11 && starts_with_one text
    then plus ∷ text
    else plus ∷ b'1' ∷ text

abbrev is_leading : Text → Bool
is_leading [] = false
is_leading (c ∷ cs) = leb b'1' c && leb c b'9'

module _ (space digit : ℕ → Bool) where
  unfoldable pub lstrip : Text → Text
  lstrip [] = []
  lstrip (c ∷ cs) = let rest = lstrip cs in if space c then rest else c ∷ cs

  abbrev unless_space : ℕ → Text → Text
  unless_space c [] = if space c then [] else c ∷ []
  unless_space c (d ∷ ds) = c ∷ d ∷ ds

  unfoldable pub rstrip : Text → Text
  rstrip [] = []
  rstrip (c ∷ cs) = unless_space c (rstrip cs)

  -- `_NON_DIGIT.sub("", text)`
  unfoldable pub kept : Text → Text
  kept [] = []
  kept (c ∷ cs) = let rest = kept cs in if digit c || c == plus then c ∷ rest else rest

  -- `_E164.match(text)`
  unfoldable pub is_e164 : Text → Bool
  unfolding all_of
  is_e164 [] = false
  is_e164 (c ∷ cs) =
      c == plus
      && is_leading cs
      && all_of digit (drop 1 cs)
      && leb 7 (length (drop 1 cs))
      && leb (length (drop 1 cs)) 14

  -- On a text that was kept, `isdigit` holds of the characters that `\d` matches.
  abbrev pub checked : Text → Phone
  checked text =
      let digits = drop 1 text in
      if length digits == 0 || not (all_of digit digits)
      then unlike
      else if not (leb 8 (length digits) && leb (length digits) 15)
      then wrong_length
      else if not (is_e164 text)
      then unlike
      else number text

  -- What is left of the text after the punctuation is read.
  unfoldable pub read : Text → Phone
  unfolding is_e164 all_of contains with_country
  read text =
      let text' = international text in
      if contains plus (drop 1 text') then unlike else checked (with_country text')

  abbrev unless_blank : Text → Phone
  unless_blank [] = blank
  unless_blank (c ∷ cs) = read (kept (c ∷ cs))

  -- `normalise`
  unfoldable pub normalise : Text → Phone
  unfolding lstrip rstrip kept read
  normalise raw = unless_blank (rstrip (lstrip raw))

abbrev dots : Text
dots = 32 ∷ 8226 ∷ 8226 ∷ 8226 ∷ 32 ∷ 8226 ∷ 8226 ∷ 8226 ∷ 32 ∷ []

-- `mask`
unfoldable pub mask : Option Text → Option Text
mask none = none
mask (some []) = none
mask (some (c ∷ cs)) = some (take 2 (c ∷ cs) ++ dots ++ drop (length (c ∷ cs) - 4) (c ∷ cs))
