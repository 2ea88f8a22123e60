-- ===== src/Social/Moderation/Names.antt =====
-- The names that a verdict collects: sets, tables of scores and their order (moderation.py).
use loupe_backend.Prelude.{
  ℕ, ◌≤◌, ◌<◌, ◌≡◌, refl, ap, inl, inr, Bool, true, false, ◌&&◌, ◌||◌, Option, List, [], ◌∷◌, arith,
  leb, is_some, Bool-cases, All,
}
use loupe_backend.Prelude.Text.{Text, text_eq, text_eq→eq, text_eq_refl, text_eq_sym}
use loupe_backend.Social.Moderation.{
  Scores, score_of, raise_score, collect_scores, or_zero, canonical, member, add_name,
  flagged_names, scored_names, place, worst_first, first,
}

unfoldable pub any : (Text → Bool) → List Text → Bool
any f [] = false
any f (n ∷ ns) = f n || any f ns

-- Some name that the provider flags.
unfoldable pub any_flag : (Text → Bool) → List (Text × Bool) → Bool
any_flag f [] = false
any_flag f ((n, hit) ∷ raw) = (hit && f (canonical n)) || any_flag f raw

-- Some name that the provider scores at `least` or more.
unfoldable pub any_score : ℕ → (Text → Bool) → List (Text × Option ℕ) → Bool
any_score least f [] = false
any_score least f ((n, s) ∷ raw) =
    (leb least (or_zero s) && f (canonical n)) || any_score least f raw

abbrev pub always : Text → Bool
always n = true

same : (f : Text → Bool) (s t : Text) → text_eq s t ≡ true → f s ≡ f t
same f s t h = ap f (text_eq→eq s t h)

any-member :
    (f : Text → Bool) (n : Text) (ns : List Text)
    → member n ns ≡ true
    → f n ≡ true
    → any f ns ≡ true
unfolding any member
any-member f n [] h e = cc
any-member f n (k ∷ ks) h e = ground (arith, same f k n, any-member f n ks)

any-add_name :
    (f : Text → Bool) (n : Text) (ns : List Text) → any f (add_name n ns) ≡ (f n || any f ns)
unfolding any add_name
any-add_name f n ns = ground (arith, any-member f n ns)

pub any-flagged_names :
    (f : Text → Bool) (raw : List (Text × Bool)) → any f (flagged_names raw) ≡ any_flag f raw
unfolding any flagged_names any_flag
any-flagged_names f [] = refl
any-flagged_names f ((n, hit) ∷ raw) =
    ground (arith, any-flagged_names f raw, any-add_name f (canonical n) (flagged_names raw))

-- Some entry of the scores.
pub any_entry : ℕ → (Text → Bool) → Scores → Bool
any_entry least f [] = false
any_entry least f ((n, s) ∷ m) = (leb least s && f n) || any_entry least f m

pub any-scored_names :
    (f : Text → Bool) (least : ℕ) (m : Scores) (ns : List Text)
    → any f (scored_names least m ns) ≡ (any_entry least f m || any f ns)
unfolding any scored_names any_entry
any-scored_names f least [] ns = refl
any-scored_names f least ((n, s) ∷ m) ns =
    ground (arith, any-scored_names f least m ns, any-add_name f n (scored_names least m ns))

any_entry-raise_score :
    (least : ℕ) (f : Text → Bool) (k : Text) (s : ℕ) (m : Scores)
    → any_entry least f (raise_score k s m) ≡ ((leb least s && f k) || any_entry least f m)
unfolding any_entry raise_score
any_entry-raise_score least f k s [] = refl
any_entry-raise_score least f k s ((j, t) ∷ m) =
    ground (arith, any_entry-raise_score least f k s m, same f j k)

pub any_entry-collect_scores :
    (least : ℕ) (f : Text → Bool) (raw : List (Text × Option ℕ)) (m : Scores)
    → any_entry least f (collect_scores raw m) ≡ (any_score least f raw || any_entry least f m)
unfolding any_score collect_scores
any_entry-collect_scores least f [] m = refl
any_entry-collect_scores least f ((n, s) ∷ raw) m = ground (
  arith,
  any_entry-collect_scores least f raw (raise_score (canonical n) (or_zero s) m),
  any_entry-raise_score least f (canonical n) (or_zero s) m,
)

any-place :
    (f : Text → Bool) (m : Scores) (n : Text) (ns : List Text)
    → any f (place m n ns) ≡ (f n || any f ns)
unfolding any place
any-place f m n [] = refl
any-place f m n (k ∷ ks) = ground (arith, any-place f m n ks)

pub any-worst_first :
    (f : Text → Bool) (m : Scores) (ns : List Text) → any f (worst_first m ns) ≡ any f ns
unfolding any worst_first
any-worst_first f m [] = refl
any-worst_first f m (n ∷ ns) =
    ground (arith, any-worst_first f m ns, any-place f m n (worst_first m ns))

pub is_some-first : (f : Text → Bool) (ns : List Text) → is_some (first f ns) ≡ any f ns
unfolding any first
is_some-first f [] = refl
is_some-first f (n ∷ ns) = ground (arith, is_some-first f ns)

pub has_entry : Text → Scores → Bool
has_entry k [] = false
has_entry k ((j, s) ∷ m) = text_eq j k || has_entry k m

abbrev Distinct : Scores → Type 0
Distinct [] = Unit
Distinct ((k, s) ∷ m) = (has_entry k m ≡ false) × Distinct m

has_entry-raise_score :
    (i k : Text) (s : ℕ) (m : Scores)
    → has_entry i (raise_score k s m) ≡ (text_eq k i || has_entry i m)
unfolding has_entry raise_score
has_entry-raise_score i k s [] = refl
has_entry-raise_score i k s ((j, t) ∷ m) =
    ground (arith, has_entry-raise_score i k s m, same (λ x. text_eq x i) j k)

raise_score-Distinct : (k : Text) (s : ℕ) (m : Scores) → Distinct m → Distinct (raise_score k s m)
unfolding has_entry raise_score
raise_score-Distinct k s [] d = (refl, tt)
raise_score-Distinct k s ((j, t) ∷ m) d = elim (Bool-cases (text_eq j k)) [
  | inl e ↦ rw e d
  | inr e ↦ rw e (
    rw (has_entry-raise_score j k s m) (ground (arith, d.0, text_eq_sym j k, e)),
    raise_score-Distinct k s m d.1,
  )
]

pub collect_scores-Distinct :
    (raw : List (Text × Option ℕ)) (m : Scores) → Distinct m → Distinct (collect_scores raw m)
unfolding collect_scores
collect_scores-Distinct [] m d = d
collect_scores-Distinct ((n, s) ∷ raw) m d =
    collect_scores-Distinct raw (raise_score (canonical n) (or_zero s) m)
      (raise_score-Distinct (canonical n) (or_zero s) m d)

-- The entries of a table are what it answers.
abbrev Answers : Scores → Scores → Type 0
Answers whole m = All (λ e. score_of e.0 whole ≡ e.1) m

Answers-cons :
    (k : Text) (s : ℕ) (whole m : Scores)
    → has_entry k m ≡ false
    → Answers whole m
    → Answers ((k, s) ∷ whole) m
unfolding has_entry score_of
Answers-cons k s whole [] h a = tt
Answers-cons k s whole ((j, t) ∷ m) h a =
    (ground (arith, h, a.0, text_eq_sym j k), Answers-cons k s whole m (ground (arith, h)) a.1)

pub Distinct-Answers : (m : Scores) → Distinct m → Answers m m
unfolding score_of
Distinct-Answers [] d = tt
Distinct-Answers ((k, s) ∷ m) d =
    (ground (arith, text_eq_refl k), Answers-cons k s m m d.0 (Distinct-Answers m d.1))

pub any_entry-score_of :
    (least most : ℕ) (whole m : Scores)
    → least ≤ most
    → Answers whole m
    → any_entry least (λ n. leb most (score_of n whole)) m ≡ any_entry most always m
unfolding any_entry
any_entry-score_of least most whole [] le a = refl
any_entry-score_of least most whole ((k, s) ∷ m) le a =
    ground (arith, any_entry-score_of least most whole m le a.1, a.0)

score_of-any_entry :
    (most : ℕ) (n : Text) (m : Scores)
    → 0 < most
    → leb most (score_of n m) ≡ true
    → any_entry most always m ≡ true
unfolding any_entry score_of
score_of-any_entry most n [] p h = ground (arith, h)
score_of-any_entry most n ((k, s) ∷ m) p h = ground (arith, h, score_of-any_entry most n m p)

pub any_flag-score_of :
    (most : ℕ) (m : Scores) (raw : List (Text × Bool))
    → 0 < most
    → any_flag (λ n. leb most (score_of n m)) raw ≡ true
    → any_entry most always m ≡ true
unfolding any_flag
any_flag-score_of most m [] p h = cc
any_flag-score_of most m ((n, hit) ∷ raw) p h =
    ground (arith, h, score_of-any_entry most (canonical n) m p, any_flag-score_of most m raw p)

pub entries_scored :
    (least : ℕ) (f : Text → Bool) (raw : List (Text × Option ℕ))
    → any_entry least f (collect_scores raw []) ≡ any_score least f raw
unfolding any_entry
entries_scored least f raw = ground (arith, any_entry-collect_scores least f raw [])
