-- ===== src/Media/ByteRange/Tests.antt =====
-- Range headers that players send, and the theorems of the siblings at concrete inputs.
use loupe_backend.Prelude.Text.{Text, strip, has, lower, text_eq}
use loupe_backend.Prelude.{ℕ, ◌≡◌, refl, some, List, [], ◌∷◌, ◌++◌, arith}
use loupe_backend.Media.ByteRange.{
  pos, negsuc, natural, whole, span, parse_range, part, ranged_response,
}
use loupe_backend.Media.ByteRange.Grammar.{IsDecimal, header, parse_range_meaning}
use loupe_backend.Media.ByteRange.Serve.{
  InFile, parse_range-InFile, ranged_response_halves, ranged_response_backwards,
}

abbrev d0 : Text
d0 = b'0' ∷ []

abbrev d1 : Text
d1 = b'1' ∷ []

abbrev d2 : Text
d2 = b'0' ∷ b'2' ∷ []

d0-IsDecimal : IsDecimal d0 0
unfolding natural
d0-IsDecimal = record { nonempty = λ e. cc; digital = (refl, tt); value = refl }

d1-IsDecimal : IsDecimal d1 1
unfolding natural
d1-IsDecimal = record { nonempty = λ e. cc; digital = (refl, tt); value = refl }

d2-IsDecimal : IsDecimal d2 2
unfolding natural
d2-IsDecimal = record { nonempty = λ e. cc; digital = (refl, (refl, tt)); value = refl }

abbrev frames : List ℕ
frames = 7 ∷ 8 ∷ 9 ∷ []

-- AVPlayer's probe.
probe : parse_range (some (header d0 d1)) 73168 ≡ span 0 (pos 1)
unfolding parse_range text_eq lower strip has
probe = refl

-- A second range, and a unit that is not bytes.
ignored :
    (parse_range (some (header d0 (b'1' ∷ b',' ∷ b'3' ∷ b'-' ∷ []))) 9 ≡ whole)
    × (parse_range (some (b's' ∷ b'=' ∷ b'0' ∷ b'-' ∷ [])) 9 ≡ whole)
unfolding parse_range text_eq lower strip has
ignored = (refl, refl)

-- The end of "bytes=1--3" is -3, and passes for an end.
negative_end : parse_range (some (header d1 (b'-' ∷ b'3' ∷ []))) 9 ≡ span 1 (negsuc 2)
unfolding parse_range text_eq lower strip has
negative_end = refl

-- "bytes=+1_0-" is 10, and "bytes=1__0-" is no number.
python_ints :
    (parse_range (some (header (b'+' ∷ b'1' ∷ b'_' ∷ b'0' ∷ []) [])) 90 ≡ span 10 (pos 89))
    × (parse_range (some (header (b'1' ∷ b'_' ∷ b'_' ∷ b'0' ∷ []) [])) 90 ≡ whole)
unfolding parse_range text_eq lower strip has
python_ints = (refl, refl)

parse_range_meaning_run :
    (parse_range (some (header d2 d1)) 9 ≡ span 2 (pos 1))
    × (parse_range (some (header d2 [])) 9 ≡ span 2 (pos 8))
    × (parse_range (some (header [] d1)) 9 ≡ span 8 (pos 8))
parse_range_meaning_run = parse_range_meaning 9 2 1 d2 d1 (omega arith) d2-IsDecimal d1-IsDecimal

parse_range-InFile_run : InFile 9 (parse_range (some (header d1 (b'9' ∷ b'9' ∷ []))) 9)
parse_range-InFile_run = parse_range-InFile (some (header d1 (b'9' ∷ b'9' ∷ []))) 9

ranged_response_halves_run :
    (ranged_response frames (some (header d0 d1))).content
      ++ (ranged_response frames (some (header d2 []))).content
    ≡ frames
ranged_response_halves_run =
    ranged_response_halves frames 2 d0 d1 d2 (omega arith) (omega arith) d0-IsDecimal d1-IsDecimal
      d2-IsDecimal

ranged_response_backwards_example :
    ranged_response frames (some (header d2 d1))
    ≡ record { status = 206; content = []; content_range = some (part 2 (pos 1) 3) }
ranged_response_backwards_example =
    ranged_response_backwards frames 2 1 d2 d1 (omega arith) (omega arith) d2-IsDecimal d1-IsDecimal
