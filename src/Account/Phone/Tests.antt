-- ===== src/Account/Phone/Tests.antt =====
-- Runs of the phone numbers' normal form, on ASCII and the Arabic-Indic digits.
use loupe_backend.Prelude.{
  ℕ, ◌≡◌, refl, Bool, true, false, ◌&&◌, ◌||◌, some, [], ◌∷◌, ◌++◌, arith, leb,
}
use loupe_backend.Prelude.Text.{Text, codes}
use loupe_backend.Account.Phone.{unlike, wrong_length, number, plus, all_of, kept, normalise, mask}
use loupe_backend.Account.Phone.Spelling.{written, abroad, normalise-written}
use loupe_backend.Account.Phone.Twice.{normalise-kept, normalise_twice}

abbrev white : ℕ → Bool
white c = leb 9 c && leb c 13 || leb 28 c && leb c 32

abbrev decimal : ℕ → Bool
decimal c = leb b'0' c && leb c b'9' || leb 1632 c && leb c 1641

white-decimal : (c : ℕ) → decimal c ≡ true → white c ≡ false
white-decimal c e = ground (arith, e)

normalise-kept_run :
    normalise white decimal (codes " 1 415 555 0123") ≡ number (codes "+14155550123")
unfolding kept normalise
normalise-kept_run =
    normalise-kept white decimal white-decimal refl refl (codes "1-(415)-555.0123")
      (codes " 1 415 555 0123") (codes "+14155550123") refl refl

normalise_twice_run :
    normalise white decimal (codes "+442079460000") ≡ number (codes "+442079460000")
unfolding normalise
normalise_twice_run =
    normalise_twice white decimal white-decimal refl refl (codes "0044 20 7946 0000")
      (codes "+442079460000") refl

normalise-written_example :
    normalise white decimal (codes "001 (415) 555-0123") ≡ number (codes "+14155550123")
unfolding kept all_of written
normalise-written_example =
    normalise-written white decimal white-decimal refl refl refl (codes "001 (415) 555-0123") abroad
      b'4' b'1' (codes "55550123") (omega arith) refl refl refl

-- The same number in Arabic-Indic digits is taken, and it is not stored as the same text.
arabic : Text
arabic = 1636 ∷ 1633 ∷ 1637 ∷ 1637 ∷ 1637 ∷ 1637 ∷ 1632 ∷ 1633 ∷ 1634 ∷ 1635 ∷ []

arabic-number : normalise white decimal arabic ≡ number (plus ∷ b'1' ∷ arabic)
unfolding normalise arabic
arabic-number = refl

plus_inside : normalise white decimal (codes "415+5550123") ≡ unlike
unfolding normalise
plus_inside = refl

too_short : normalise white decimal (codes "5550") ≡ wrong_length
unfolding normalise
too_short = refl

masked :
    mask (some (codes "+14155550123"))
    ≡ some (codes "+1 " ++ 8226 ∷ 8226 ∷ 8226 ∷ 32 ∷ 8226 ∷ 8226 ∷ 8226 ∷ codes " 0123")
unfolding mask
masked = refl
