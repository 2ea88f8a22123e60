-- ===== src/Prelude/Text.antt =====
-- Text as a list of code points, with Python's `str` methods that the program calls on header and
-- field values. Header values are decoded as Latin-1, so no code point is above 255 there.
use Prim.Native.Nat.{ℕ, ◌+◌}
use Prim.Native.Char.{code}
use Prim.Native.String.{String}
use mathlib.Core.Path.{◌≡◌, refl, ap}
use mathlib.Core.Logic.{inl, inr}
use mathlib.Core.Bool.{Bool, true, false, ◌&&◌, ◌||◌}
use mathlib.Core.List.{List, [], ◌∷◌, ◌++◌}
use native.Mathlib.Omega.{arith}
use loupe_backend.Prelude.Tests.{leb, ◌==◌, if◌then◌else◌, Bool-cases}
use loupe_backend.Prelude.Lists.{All}

abbrev pub Text : Type 0
Text = List ℕ

-- `str.isspace` of one Latin-1 character.
abbrev pub is_space : ℕ → Bool
is_space c = leb 9 c && leb c 13 || leb 28 c && leb c 32 || c == 133 || c == 160

unfoldable pub lstrip : Text → Text
lstrip [] = []
lstrip (c ∷ cs) = let rest = lstrip cs in if is_space c then rest else c ∷ cs

abbrev unless_blank : ℕ → Text → Text
unless_blank c [] = if is_space c then [] else c ∷ []
unless_blank c (d ∷ ds) = c ∷ d ∷ ds

unfoldable pub rstrip : Text → Text
rstrip [] = []
rstrip (c ∷ cs) = unless_blank c (rstrip cs)

unfoldable pub strip : Text → Text
unfolding lstrip rstrip
strip s = rstrip (lstrip s)

abbrev cons_head : ℕ → List Text → List Text
cons_head c [] = (c ∷ []) ∷ []
cons_head c (p ∷ ps) = (c ∷ p) ∷ ps

-- `str.split(sep)` for a separator of one character: never the empty list.
unfoldable pub split : ℕ → Text → List Text
split sep [] = [] ∷ []
split sep (c ∷ cs) = let rest = split sep cs in if c == sep then [] ∷ rest else cons_head c rest

cons_head-append :
    (c sep : ℕ) (s : Text) (ys : List Text)
    → cons_head c (split sep s ++ ys) ≡ cons_head c (split sep s) ++ ys
unfolding split
cons_head-append c sep [] ys = refl
cons_head-append c sep (d ∷ s) ys = elim (Bool-cases (d == sep)) [
  | inl e ↦ rw (e, split) refl
  | inr e ↦ rw (e, split) (split_cases (split sep s))
]
  where
    split_cases :
        (xs : List Text) → cons_head c (cons_head d xs ++ ys) ≡ cons_head c (cons_head d xs) ++ ys
    split_cases [] = refl
    split_cases (p ∷ ps) = refl

-- A separator splits whatever stands on its two sides by itself.
pub split-append : (sep : ℕ) (s t : Text) → split sep (s ++ sep ∷ t) ≡ split sep s ++ split sep t
unfolding split
split-append sep [] t = ground arith
split-append sep (c ∷ s) t = elim (Bool-cases (c == sep)) [
  | inl e ↦ rw (e, split) (ap (◌∷◌ []) (split-append sep s t))
  | inr e ↦ rw (e, split) (rw (split-append sep s t) (cons_head-append c sep s (split sep t)))
]

pub split_none : (sep : ℕ) (s : Text) → All (λ c. (c == sep) ≡ false) s → split sep s ≡ s ∷ []
unfolding split
split_none sep [] h = refl
split_none sep (c ∷ s) h = rw (h.0, split) (rw (split_none sep s h.1) refl)

-- `str.partition(sep)` for a separator of one character.
unfoldable pub partition : ℕ → Text → Text × Bool × Text
partition sep [] = ([], false, [])
partition sep (c ∷ cs) =
    let (before, found, after) = partition sep cs in
    if c == sep then ([], true, cs) else (c ∷ before, found, after)

-- The code points of a literal.
abbrev pub codes : String → Text
codes String.[] = []
codes (String.◌∷◌ c s) = code c ∷ codes s

-- `sep in s`
unfoldable pub has : ℕ → Text → Bool
has c [] = false
has c (d ∷ ds) = d == c || has c ds

-- `str.lower`, on ASCII letters.
unfoldable pub lower : Text → Text
lower [] = []
lower (c ∷ cs) = (if leb b'A' c && leb c b'Z' then c + 32 else c) ∷ lower cs

unfoldable pub text_eq : Text → Text → Bool
text_eq [] [] = true
text_eq [] (d ∷ ds) = false
text_eq (c ∷ cs) [] = false
text_eq (c ∷ cs) (d ∷ ds) = c == d && text_eq cs ds

abbrev pub is_digit : ℕ → Bool
is_digit c = leb b'0' c && leb c b'9'

pub partition-append :
    (sep : ℕ) (s t : Text)
    → All (λ c. (c == sep) ≡ false) s
    → partition sep (s ++ sep ∷ t) ≡ (s, true, t)
unfolding partition
partition-append sep [] t h = ground arith
partition-append sep (c ∷ s) t h = ground (arith, partition-append sep s t h.1, h.0)

pub has-append : (c : ℕ) (s t : Text) → has c (s ++ t) ≡ (has c s || has c t)
unfolding has
has-append c [] t = refl
has-append c (d ∷ s) t = ground (arith, has-append c s t)

-- Text without white space is its own `strip`.
rstrip_none : (s : Text) → All (λ c. is_space c ≡ false) s → rstrip s ≡ s
unfolding rstrip
rstrip_none [] h = refl
rstrip_none (c ∷ []) h = ground (arith, h.0)
rstrip_none (c ∷ d ∷ s) h = rw (rstrip_none (d ∷ s) h.1) refl

pub strip_none : (s : Text) → All (λ c. is_space c ≡ false) s → strip s ≡ s
unfolding strip
strip_none [] h = refl
strip_none (c ∷ s) h = rw (h.0, lstrip) (rstrip_none (c ∷ s) h)

pub text_eq→eq : (s t : Text) → text_eq s t ≡ true → s ≡ t
unfolding text_eq
text_eq→eq [] [] h = refl
text_eq→eq [] (d ∷ ds) h = cc
text_eq→eq (c ∷ cs) [] h = cc
text_eq→eq (c ∷ cs) (d ∷ ds) h = ground (arith, text_eq→eq cs ds)

pub text_eq_refl : (s : Text) → text_eq s s ≡ true
unfolding text_eq
text_eq_refl [] = refl
text_eq_refl (c ∷ cs) = ground (arith, text_eq_refl cs)

pub text_eq_sym : (s t : Text) → text_eq s t ≡ text_eq t s
unfolding text_eq
text_eq_sym [] [] = refl
text_eq_sym [] (d ∷ ds) = refl
text_eq_sym (c ∷ cs) [] = refl
text_eq_sym (c ∷ cs) (d ∷ ds) = ground (arith, text_eq_sym cs ds)
