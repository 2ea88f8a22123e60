-- ===== src/Market/History/Latest.antt =====
-- The order of the points and the last of them (price_snapshot.py).
use loupe_backend.Prelude.{
  if_elim, ℕ, ◌≡◌, refl, ap, ◌∙◌, Bool, true, false, ◌&&◌, ◌||◌, not, Option, none, some, List, [],
  ◌∷◌, arith, ◌==◌, is_some,
}
use loupe_backend.Prelude.Text.{Text, text_eq}
use loupe_backend.Market.Json.{Json, number}
use loupe_backend.Market.History.{Point, text_leb, place_point, sort_points}

pub text_leb_refl : (s : Text) → text_leb s s ≡ true
unfolding text_leb
text_leb_refl [] = refl
text_leb_refl (c ∷ cs) = ground (arith, text_leb_refl cs)

text_leb_total : (s t : Text) → text_leb s t ≡ false → text_leb t s ≡ true
unfolding text_leb
text_leb_total [] t e = ground (arith, e)
text_leb_total (c ∷ cs) [] e = refl
text_leb_total (c ∷ cs) (d ∷ ds) e = ground (arith, e, text_leb_total cs ds)

text_leb_trans : (s t u : Text) → text_leb s t ≡ true → text_leb t u ≡ true → text_leb s u ≡ true
unfolding text_leb
text_leb_trans [] t u e f = refl
text_leb_trans (c ∷ cs) [] u e f = ground (arith, e)
text_leb_trans (c ∷ cs) (d ∷ ds) [] e f = ground (arith, f)
text_leb_trans (c ∷ cs) (d ∷ ds) (b ∷ bs) e f = ground (arith, e, f, text_leb_trans cs ds bs)

pub text_leb_antisym : (s t : Text) → text_leb s t ≡ true → text_leb t s ≡ true → text_eq s t ≡ true
unfolding text_leb text_eq
text_leb_antisym [] [] e f = refl
text_leb_antisym [] (d ∷ ds) e f = ground (arith, f)
text_leb_antisym (c ∷ cs) [] e f = ground (arith, e)
text_leb_antisym (c ∷ cs) (d ∷ ds) e f = ground (arith, e, f, text_leb_antisym cs ds)

abbrev pub or_point : Point → Option Point → Option Point
or_point p none = some p
or_point p (some m) = some m

unfoldable pub last_point : List Point → Option Point
last_point [] = none
last_point (p ∷ ps) = or_point p (last_point ps)

-- No point is later than this date.
unfoldable pub is_above : Text → List Point → Bool
unfolding text_leb
is_above d [] = true
is_above d (p ∷ ps) = text_leb p.date d && is_above d ps

abbrev pub is_top : Option Point → List Point → Bool
is_top none ps = true
is_top (some m) ps = is_above m.date ps

is_above-place_point :
    (d : Text) (p : Point) (ps : List Point)
    → is_above d (place_point p ps) ≡ (text_leb p.date d && is_above d ps)
unfolding is_above place_point
is_above-place_point d p [] = refl
is_above-place_point d p (q ∷ qs) = ground (arith, is_above-place_point d p qs)

is_some-last_point : (p : Point) (ps : List Point) → is_some (last_point (place_point p ps)) ≡ true
unfolding last_point place_point
is_some-last_point p [] = refl
is_some-last_point p (q ∷ qs) =
    if_elim (λ l. is_some (last_point l) ≡ true) (text_leb p.date q.date) _ _
      (λ _. is_some-or_point p (last_point (q ∷ qs)))
      (λ _. is_some-or_point q (last_point (place_point p qs)))
  where
    is_some-or_point : (r : Point) (o : Option Point) → is_some (or_point r o) ≡ true
    is_some-or_point r none = refl
    is_some-or_point r (some m) = refl

tail_top :
    (q : Point) (o : Option Point) (qs : List Point)
    → is_top (or_point q o) (q ∷ qs) ≡ true
    → is_top o qs ≡ true
unfolding is_above
tail_top q none qs top = refl
tail_top q (some m) qs top = ground (arith, top)

front_top :
    (p q : Point) (o : Option Point) (qs : List Point)
    → text_leb p.date q.date ≡ true
    → is_top (or_point q o) (q ∷ qs) ≡ true
    → is_top (or_point p (or_point q o)) (p ∷ q ∷ qs) ≡ true
unfolding is_above
front_top p q none qs le top = ground (arith, le, top)
front_top p q (some m) qs le top = ground (arith, le, top, text_leb_trans p.date q.date m.date le)

back_top :
    (p q : Point) (o : Option Point) (qs : List Point)
    → text_leb p.date q.date ≡ false
    → is_some o ≡ true
    → is_top o (place_point p qs) ≡ true
    → is_top (or_point q o) (q ∷ place_point p qs) ≡ true
unfolding is_above
back_top p q none qs gt known top = ground (arith, known)
back_top p q (some m) qs gt known top = ground (
  arith,
  top,
  is_above-place_point m.date p qs,
  text_leb_trans q.date p.date m.date (text_leb_total p.date q.date gt),
)

is_top-place_point :
    (p : Point) (ps : List Point)
    → is_top (last_point ps) ps ≡ true
    → is_top (last_point (place_point p ps)) (place_point p ps) ≡ true
unfolding is_above place_point last_point
is_top-place_point p [] top = ground (arith, text_leb_refl p.date)
is_top-place_point p (q ∷ qs) top =
    if_elim {A = List Point} (λ l. is_top (last_point l) l ≡ true) (text_leb p.date q.date) _ _
      (λ le. front_top p q (last_point qs) qs le top)
      (λ gt.
        back_top p q (last_point (place_point p qs)) qs gt (is_some-last_point p qs)
          (is_top-place_point p qs (tail_top q (last_point qs) qs top)))

-- The last point of a sorted list is the latest.
pub is_top-sort_points :
    (ps : List Point) → is_top (last_point (sort_points ps)) (sort_points ps) ≡ true
unfolding sort_points is_above last_point
is_top-sort_points [] = refl
is_top-sort_points (p ∷ ps) = is_top-place_point p (sort_points ps) (is_top-sort_points ps)

abbrev pub is_number : ℕ → Json → Bool
is_number price (number n) = n == price
is_number price _ = false

-- A point that is not later than today and, if it is today's, has this price.
abbrev pub is_fine : Text → ℕ → Point → Bool
is_fine today price p =
    text_leb p.date today && (not (text_eq p.date today) || is_number price p.price)

unfoldable pub all_fine : Text → ℕ → List Point → Bool
unfolding text_leb text_eq
all_fine today price [] = true
all_fine today price (p ∷ ps) = is_fine today price p && all_fine today price ps

unfoldable pub has_date : Text → List Point → Bool
unfolding text_eq
has_date today [] = false
has_date today (p ∷ ps) = text_eq p.date today || has_date today ps

all_fine-place_point :
    (today : Text) (price : ℕ) (p : Point) (ps : List Point)
    → all_fine today price (place_point p ps) ≡ (is_fine today price p && all_fine today price ps)
unfolding all_fine place_point
all_fine-place_point today price p [] = refl
all_fine-place_point today price p (q ∷ qs) = ground (arith, all_fine-place_point today price p qs)

has_date-place_point :
    (today : Text) (p : Point) (ps : List Point)
    → has_date today (place_point p ps) ≡ (text_eq p.date today || has_date today ps)
unfolding has_date place_point
has_date-place_point today p [] = refl
has_date-place_point today p (q ∷ qs) = ground (arith, has_date-place_point today p qs)

pub all_fine-sort_points :
    (today : Text) (price : ℕ) (ps : List Point)
    → all_fine today price (sort_points ps) ≡ all_fine today price ps
unfolding all_fine sort_points
all_fine-sort_points today price [] = refl
all_fine-sort_points today price (p ∷ ps) =
    all_fine-place_point today price p (sort_points ps)
    ∙ ap (λ b. is_fine today price p && b) (all_fine-sort_points today price ps)

pub has_date-sort_points :
    (today : Text) (ps : List Point) → has_date today (sort_points ps) ≡ has_date today ps
unfolding has_date sort_points
has_date-sort_points today [] = refl
has_date-sort_points today (p ∷ ps) =
    has_date-place_point today p (sort_points ps)
    ∙ ap (λ b. text_eq p.date today || b) (has_date-sort_points today ps)
