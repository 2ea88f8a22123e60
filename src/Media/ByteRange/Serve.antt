-- ===== src/Media/ByteRange/Serve.antt =====
-- What `ranged_response` sends (byte_range.py).
use loupe_backend.Prelude.Text.{Text, strip, partition, has, lower, text_eq}
use loupe_backend.Prelude.{
  ℕ, zero, suc, ◌-◌, ◌≤◌, ◌<◌, min, ◌≡◌, refl, ap, ◌⊎◌, inl, inr, Bool, true, false, ◌||◌, not,
  Option, none, some, List, [], ◌∷◌, ◌++◌, arith, leb, ◌==◌, if◌then◌else◌, Option-cases, length,
  take, drop, length-drop,
}
use loupe_backend.Media.ByteRange.{
  ℤ, pos, negsuc, int, bytes, Range, whole, outside, span, suffix, bounded, end_of, offsets,
  from_spec, parse_header, parse_range, unsatisfied, part, Response, slice, respond,
  ranged_response,
}
use loupe_backend.Media.ByteRange.Grammar.{IsDecimal, header, parse_range_meaning}

lt→not-leb : (a b : ℕ) → b < a → leb a b ≡ false
lt→not-leb a b h = ground arith

-- The offsets name bytes of the file; an end below 0 is possible.
abbrev pub InFile : ℕ → Range → Type 0
InFile size whole = Unit
InFile size outside = Unit
InFile size (span s (pos e)) = (s < size) × (e < size)
InFile size (span s (negsuc n)) = s < size

suffix-InFile : (size : ℕ) (o : Option ℤ) → 0 < size → InFile size (suffix size o)
unfolding suffix
suffix-InFile size none p = tt
suffix-InFile size (some (pos zero)) p = tt
suffix-InFile size (some (negsuc n)) p = tt
suffix-InFile size (some (pos (suc n))) p = (omega arith, omega arith)

bounded-InFile : (size : ℕ) (s e : ℤ) → InFile size (bounded size s e)
unfolding bounded
bounded-InFile size (negsuc n) e = tt
bounded-InFile size (pos s) (pos e) = ground arith
bounded-InFile size (pos s) (negsuc n) = ground arith

offsets-InFile : (size : ℕ) (s t : Text) → 0 < size → InFile size (offsets size s t)
unfolding offsets
offsets-InFile size [] t p = suffix-InFile size (int t) p
offsets-InFile size (c ∷ s) t p = elim (Option-cases (int (c ∷ s))) [
  | inl e ↦ rw e tt
  | inr (a, e) ↦ rw e (elim (Option-cases (end_of size t)) [
    | inl f ↦ rw f tt
    | inr (b, f) ↦ rw f (bounded-InFile size a b)
  ])
]

InFile-else :
    (size : ℕ) (b : Bool) (r : Range) → InFile size r → InFile size (if b then whole else r)
InFile-else size true r h = tt
InFile-else size false r h = h

InFile-then :
    (size : ℕ) (b : Bool) (r : Range) → InFile size r → InFile size (if b then r else whole)
InFile-then size true r h = h
InFile-then size false r h = tt

from_spec-InFile : (size : ℕ) (spec : Text) → 0 < size → InFile size (from_spec size spec)
unfolding from_spec
from_spec-InFile size spec p =
    let q = partition b'-' (strip spec) in
    InFile-then size q.1 (offsets size q.0 q.2) (offsets-InFile size q.0 q.2 p)

parse_header-InFile : (h : Text) (size : ℕ) → 0 < size → InFile size (parse_header h size)
unfolding parse_header
parse_header-InFile h size p =
    let q = partition b'=' h in
    InFile-else size (not (text_eq (lower (strip q.0)) bytes) || has b',' q.2) (from_spec size q.2)
      (from_spec-InFile size q.2 p)

-- Whatever the header, the offsets that `parse_range` returns begin in the file and do not end behind
-- its last byte.
pub parse_range-InFile : (h : Option Text) (size : ℕ) → InFile size (parse_range h size)
unfolding parse_range
parse_range-InFile none size = tt
parse_range-InFile (some []) size = tt
parse_range-InFile (some (c ∷ cs)) zero = tt
parse_range-InFile (some (c ∷ cs)) (suc size) =
    InFile-else (suc size) (suc size == 0) _ (parse_header-InFile (c ∷ cs) (suc size) (omega arith))

module _ {A : Type 0} where
  -- A response of one of the three kinds: the whole file; a refusal that carries its size; or the
  -- bytes of a range in the file, which number `end - start + 1` if the range is not backwards.
  abbrev pub IsAnswer : List A → Response A → Type 0
  IsAnswer body r =
      ((r.status ≡ 200) × (r.content ≡ body) × (r.content_range ≡ none))
      ⊎ (((r.status ≡ 416)
            × (r.content ≡ [])
            × (r.content_range ≡ some (unsatisfied (length body))))
          ⊎ ((start : ℕ) × (end : ℤ) × (r.status ≡ 206)
              × (start < length body)
              × (r.content_range ≡ some (part start end (length body)))
              × ((e : ℕ)
                  → end ≡ pos e
                  → (e < length body)
                    × (r.content ≡ take (suc e - start) (drop start body))
                    × (start ≤ e → length r.content ≡ suc e - start))))

  take-append-drop : (n : ℕ) (xs : List A) → take n xs ++ drop n xs ≡ xs
  take-append-drop zero xs = refl
  take-append-drop (suc n) [] = refl
  take-append-drop (suc n) (x ∷ xs) = rw (take-append-drop n xs)

  take_all : (n : ℕ) (xs : List A) → length xs ≤ n → take n xs ≡ xs
  take_all zero [] h = refl
  take_all zero (x ∷ xs) h = absurd (omega arith)
  take_all (suc n) [] h = refl
  take_all (suc n) (x ∷ xs) h = ap (◌∷◌ x) (take_all n xs (omega arith))

  -- A player that reads the first `k` bytes and then the rest has read the file.
  pub ranged_response_halves :
      (body : List A) (k : ℕ) (zero_s last_s k_s : Text)
      → 0 < k
      → k < length body
      → IsDecimal zero_s 0
      → IsDecimal last_s (k - 1)
      → IsDecimal k_s k
      → (ranged_response body (some (header zero_s last_s))).content
          ++ (ranged_response body (some (header k_s []))).content
        ≡ body
  unfolding ranged_response respond slice
  ranged_response_halves body k zero_s last_s k_s p q hz hl hk =
      let n = length body in
      let first : suc (min (k - 1) (n - 1)) - 0 ≡ k = omega arith in
      let rest : suc (n - 1) - k ≡ n - k = omega arith in
      rw ((parse_range_meaning n 0 (k - 1) zero_s last_s (omega arith) hz hl).0) (
        rw ((parse_range_meaning n k (k - 1) k_s last_s (omega arith) hk hl).1) (
          rw (lt→not-leb n 0 (omega arith)) (
            rw (lt→not-leb n k q) (
              rw first (
                rw rest (
                  rw (take_all (n - k) (drop k body) (omega (arith, length-drop k body)))
                    (take-append-drop k body)))))))

  -- A range whose last byte stands before its first, which RFC 7233 calls invalid and has ignored, is
  -- answered with 206, no bytes, and a Content-Range that runs backwards.
  pub ranged_response_backwards :
      (body : List A) (a b : ℕ) (s t : Text)
      → b < a
      → a < length body
      → IsDecimal s a
      → IsDecimal t b
      → ranged_response body (some (header s t))
        ≡ record { status = 206; content = []; content_range = some (part a (pos b) (length body)) }
  unfolding ranged_response respond slice
  ranged_response_backwards body a b s t p q hs ht =
      rw ((parse_range_meaning (length body) a b s t (omega arith) hs ht).0) (
        rw (lt→not-leb (length body) a q) (
          rw (let e : min b (length body - 1) ≡ b = omega arith in e)
            (rw (let e : suc b - a ≡ 0 = omega arith in e) refl)))
