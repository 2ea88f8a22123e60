-- ===== src/Media/ByteRange/Grammar.antt =====
-- What well-formed Range headers mean (byte_range.py, `parse_range`), for numbers written in any way
-- in decimal digits, with leading zeros too.
use loupe_backend.Prelude.Text.{
  Text, strip, partition, has, lower, text_eq, is_digit, is_space, partition-append, has-append,
  strip_none,
}
use loupe_backend.Prelude.{
  ℕ, zero, suc, ◌-◌, ◌<◌, min, ◌≡◌, refl, ◌≢◌, true, false, some, [], ◌∷◌, ◌++◌, arith, leb, ◌==◌,
  if◌then◌else◌, All,
}
use loupe_backend.Media.ByteRange.{
  pos, natural, signed, int, outside, span, bytes, suffix, offsets, from_spec, parse_header,
  parse_range,
}

-- `s` is one digit or more, and reads as `n`.
pub record IsDecimal (s : Text) (n : ℕ) : Type 0 where
  pub nonempty : s ≢ []
  pub digital : All (λ c. is_digit c ≡ true) s
  pub value : natural s ≡ some n

abbrev AllDigits : Text → Type 0
AllDigits = All (λ c. is_digit c ≡ true)

digits-spaceless : (s : Text) → AllDigits s → All (λ c. is_space c ≡ false) s
digits-spaceless [] h = tt
digits-spaceless (c ∷ s) h = (ground (arith, h.0), digits-spaceless s h.1)

digits-dashless : (s : Text) → AllDigits s → All (λ c. (c == b'-') ≡ false) s
digits-dashless [] h = tt
digits-dashless (c ∷ s) h = (ground (arith, h.0), digits-dashless s h.1)

digits-commaless : (s : Text) → AllDigits s → has b',' s ≡ false
unfolding has
digits-commaless [] h = refl
digits-commaless (c ∷ s) h = ground (arith, h.0, digits-commaless s h.1)

spaceless-append :
    (s t : Text)
    → All (λ c. is_space c ≡ false) s
    → All (λ c. is_space c ≡ false) t
    → All (λ c. is_space c ≡ false) (s ++ t)
spaceless-append [] t h k = k
spaceless-append (c ∷ s) t h k = (h.0, spaceless-append s t h.1 k)

int-digits : (s : Text) (n : ℕ) → IsDecimal s n → int s ≡ some (pos n)
unfolding int signed
int-digits [] n h = absurd (h.nonempty refl)
int-digits (c ∷ s) n h =
    rw (strip_none (c ∷ s) (digits-spaceless (c ∷ s) h.digital))
      (ground (arith, h.digital.0, h.value))

-- The header `bytes=<start_s>-<end_s>`.
abbrev pub header : Text → Text → Text
header start_s end_s = bytes ++ b'=' ∷ start_s ++ b'-' ∷ end_s

from_spec-dash :
    (size : ℕ) (s t : Text)
    → AllDigits s
    → AllDigits t
    → from_spec size (s ++ b'-' ∷ t) ≡ offsets size s t
unfolding from_spec
from_spec-dash size s t h k =
    rw
      (strip_none (s ++ b'-' ∷ t)
        (spaceless-append s (b'-' ∷ t) (digits-spaceless s h) (refl, digits-spaceless t k)))
      (rw (partition-append b'-' s t (digits-dashless s h)) refl)

parse_range-header :
    (size : ℕ) (s t : Text)
    → 0 < size
    → AllDigits s
    → AllDigits t
    → parse_range (some (header s t)) size ≡ offsets size s t
unfolding parse_range parse_header lower text_eq strip partition has
parse_range-header size s t p h k = ground (
  arith,
  from_spec-dash size s t h k,
  has-append b',' s (b'-' ∷ t),
  digits-commaless s h,
  digits-commaless t k,
)

-- A range with both ends is the bytes from the first to the last, its end cut to the last byte of the
-- file; with no end it goes to the last byte; with no start it is that many last bytes, or all. It is
-- outside exactly if it starts behind the last byte, or asks for the last 0 bytes.
pub parse_range_meaning :
    (size a b : ℕ) (s t : Text)
    → 0 < size
    → IsDecimal s a
    → IsDecimal t b
    → (parse_range (some (header s t)) size
        ≡ (if leb size a then outside else span a (pos (min b (size - 1)))))
      × (parse_range (some (header s [])) size
          ≡ (if leb size a then outside else span a (pos (size - 1))))
      × (parse_range (some (header [] t)) size
          ≡ (if b == 0 then outside else span (size - b) (pos (size - 1))))
unfolding offsets
parse_range_meaning size a b s t p h k = (
  rw (parse_range-header size s t p h.digital k.digital) (closed s t h k),
  rw (parse_range-header size s [] p h.digital tt) (open_ended s h),
  rw (parse_range-header size [] t p tt k.digital) (rw (int-digits t b k) (last_bytes b)),
)
  where
    closed :
        (s t : Text)
        → IsDecimal s a
        → IsDecimal t b
        → offsets size s t ≡ (if leb size a then outside else span a (pos (min b (size - 1))))
    closed [] t h k = absurd (h.nonempty refl)
    closed (c ∷ s) [] h k = absurd (k.nonempty refl)
    closed (c ∷ s) (d ∷ t) h k = rw (int-digits (c ∷ s) a h) (rw (int-digits (d ∷ t) b k) refl)

    open_ended :
        (s : Text)
        → IsDecimal s a
        → offsets size s [] ≡ (if leb size a then outside else span a (pos (size - 1)))
    open_ended [] h = absurd (h.nonempty refl)
    open_ended (c ∷ s) h = rw (int-digits (c ∷ s) a h) (ground arith)

    last_bytes :
        (b : ℕ)
        → suffix size (some (pos b))
          ≡ (if b == 0 then outside else span (size - b) (pos (size - 1)))
    last_bytes zero = refl
    last_bytes (suc b) = ground arith
