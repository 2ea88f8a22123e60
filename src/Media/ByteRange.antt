-- ===== src/Media/ByteRange.antt =====
-- app/social/byte_range.py: the Range header of a media request, and the response to it.
pub mod Grammar
pub mod Serve
mod Tests
use loupe_backend.Prelude.Text.{Text, strip, partition, has, lower, text_eq, is_digit}
use mathlib.Core.Option
use loupe_backend.Prelude.{
  ℕ, zero, suc, ◌+◌, ◌-◌, ◌*◌, min, Bool, true, false, ◌&&◌, ◌||◌, not, Option, none, some, List,
  [], ◌∷◌, map, ltb, leb, ◌==◌, if◌then◌else◌, length, take, drop,
}

-- A Python `int`: `negsuc n` is -(n + 1).
pub data ℤ : Type 0 where
  pos : ℕ → ℤ
  negsuc : ℕ → ℤ

-- Decimal digits with single underscores between them; `need` after a place that a digit must follow.
unfoldable pub digits : Bool → ℕ → Text → Option ℕ
digits true acc [] = none
digits false acc [] = some acc
digits need acc (c ∷ cs) = elim (is_digit c) [
  | true ↦ digits false (acc * 10 + (c - b'0')) cs
  | false ↦ elim (c == b'_' && not need) [ true ↦ digits true acc cs | false ↦ none ]
]

unfoldable pub count_digits : Text → ℕ
count_digits [] = 0
count_digits (c ∷ cs) = if is_digit c then suc (count_digits cs) else count_digits cs

-- CPython refuses to read more digits than this (`sys.get_int_max_str_digits`).
abbrev pub max_str_digits : ℕ
max_str_digits = 4300

unfoldable pub natural : Text → Option ℕ
unfolding digits count_digits
natural s = if ltb max_str_digits (count_digits s) then none else digits true 0 s

abbrev pub negated : ℕ → ℤ
negated zero = pos zero
negated (suc n) = negsuc n

unfoldable pub signed : Text → Option ℤ
unfolding natural
signed [] = none
signed (c ∷ cs) =
    if c == b'-'
    then Option.map negated (natural cs)
    else if c == b'+'
    then Option.map pos (natural cs)
    else Option.map pos (natural (c ∷ cs))

-- `int(s)`; `none` is its ValueError.
unfoldable pub int : Text → Option ℤ
unfolding signed
int s = signed (strip s)

-- `None`, ValueError, or the inclusive offsets. The end may lie below the start, and below 0.
pub data Range : Type 0 where
  whole : Range
  outside : Range
  span : ℕ → ℤ → Range

-- `max(0, size - length), size - 1`, for a positive length
unfoldable pub suffix : ℕ → Option ℤ → Range
suffix size none = whole
suffix size (some (pos zero)) = outside
suffix size (some (negsuc n)) = outside
suffix size (some (pos (suc n))) = span (size - suc n) (pos (size - 1))

abbrev pub clamp : ℤ → ℕ → ℤ
clamp (pos e) top = pos (min e top)
clamp (negsuc n) top = negsuc n

unfoldable pub bounded : ℕ → ℤ → ℤ → Range
bounded size (negsuc n) end = outside
bounded size (pos start) end = if leb size start then outside else span start (clamp end (size - 1))

-- `int(end_s) if end_s else size - 1`
unfoldable pub end_of : ℕ → Text → Option ℤ
end_of size [] = some (pos (size - 1))
end_of size (c ∷ cs) = int (c ∷ cs)

abbrev both : ℕ → Option ℤ → Option ℤ → Range
both size none e = whole
both size (some s) none = whole
both size (some s) (some e) = bounded size s e

unfoldable pub offsets : ℕ → Text → Text → Range
unfolding suffix bounded end_of int
offsets size [] end_s = suffix size (int end_s)
offsets size (c ∷ cs) end_s = both size (int (c ∷ cs)) (end_of size end_s)

unfoldable pub from_spec : ℕ → Text → Range
unfolding offsets partition
from_spec size spec =
    let (start_s, sep, end_s) = partition b'-' (strip spec) in
    if sep then offsets size start_s end_s else whole

abbrev pub bytes : Text
bytes = b'b' ∷ b'y' ∷ b't' ∷ b'e' ∷ b's' ∷ []

unfoldable pub parse_header : Text → ℕ → Range
unfolding from_spec
parse_header header size =
    let (unit, _, spec) = partition b'=' header in
    if not (text_eq (lower (strip unit)) bytes) || has b',' spec then whole else from_spec size spec

unfoldable pub parse_range : Option Text → ℕ → Range
unfolding parse_header
parse_range none size = whole
parse_range (some []) size = whole
parse_range (some (c ∷ cs)) size = if size == 0 then whole else parse_header (c ∷ cs) size

-- The Content-Range header: `bytes */size`, or `bytes start-end/size`.
pub data ContentRange : Type 0 where
  unsatisfied : ℕ → ContentRange
  part : ℕ → ℤ → ℕ → ContentRange

pub record Response (A : Type 0) : Type 0 where
  pub status : ℕ
  pub content : List A
  pub content_range : Option ContentRange

module _ {A : Type 0} where
  -- `body[start : end + 1]`: a negative bound counts from the end.
  pub slice : List A → ℕ → ℤ → List A
  slice body start (pos e) = take (suc e - start) (drop start body)
  slice body start (negsuc zero) = []
  slice body start (negsuc (suc n)) = take (length body - suc n - start) (drop start body)

  pub respond : List A → Range → Response A
  unfolding slice
  respond body whole = record { status = 200; content = body; content_range = none }
  respond body outside = record {
    status = 416;
    content = [];
    content_range = some (unsatisfied (length body));
  }
  respond body (span start end) = record {
    status = 206;
    content = slice body start end;
    content_range = some (part start end (length body));
  }

  pub ranged_response : List A → Option Text → Response A
  unfolding respond
  ranged_response body header = respond body (parse_range header (length body))
