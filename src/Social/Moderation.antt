-- ===== src/Social/Moderation.antt =====
-- How a classifier's result becomes a verdict (app/social/moderation.py). A score, a float from 0 to 1
-- in the source, is a number of hundredths of a percent.
pub mod Names
pub mod Rule
mod Tests
use loupe_backend.Prelude.{
  ℕ, ◌-◌, ◌/◌, max, Bool, true, false, ◌&&◌, ◌||◌, not, Option, none, some, List, [], ◌∷◌, leb,
  ◌==◌, if◌then◌else◌,
}
use loupe_backend.Prelude.Text.{Text, codes, text_eq, lower, strip}

pub data Action : Type 0 where
  allow review block : Action

pub record Policy : Type 0 where
  pub zero_tolerance : List Text
  pub review_score : ℕ
  pub block_score : ℕ

-- What a verdict's note says.
pub data Detail : Type 0 where
  silent timed_out failed : Detail
  blocked_for : Text → List Text → Detail
  certain_of : Text → ℕ → Detail
  flagged : List Text → Detail

pub record Verdict : Type 0 where
  pub action : Action
  pub categories : List Text
  pub score : ℕ
  pub detail : Detail

-- `resp.results[0]`
pub record Result : Type 0 where
  pub category_scores : List (Text × Option ℕ)
  pub categories : List (Text × Bool)

abbrev pub category_names : List Text
category_names =
    codes "harassment"
    ∷ codes "harassment/threatening"
    ∷ codes "hate"
    ∷ codes "hate/threatening"
    ∷ codes "illicit"
    ∷ codes "illicit/violent"
    ∷ codes "self-harm"
    ∷ codes "self-harm/intent"
    ∷ codes "self-harm/instructions"
    ∷ codes "sexual"
    ∷ codes "sexual/minors"
    ∷ codes "violence"
    ∷ codes "violence/graphic"
    ∷ []

abbrev pub zero_tolerance_names : List Text
zero_tolerance_names =
    codes "sexual/minors"
    ∷ codes "sexual"
    ∷ codes "hate/threatening"
    ∷ codes "harassment/threatening"
    ∷ codes "violence/graphic"
    ∷ codes "self-harm/instructions"
    ∷ codes "illicit/violent"
    ∷ []

abbrev pub balanced : Policy
balanced = record { zero_tolerance = zero_tolerance_names; review_score = 5500; block_score = 9200 }

abbrev pub identity : Policy
identity = record {
  zero_tolerance = codes "hate" ∷ codes "harassment" ∷ zero_tolerance_names;
  review_score = 4000;
  block_score = 4000;
}

abbrev is_alnum : ℕ → Bool
is_alnum c = leb b'a' c && leb c b'z' || leb b'0' c && leb c b'9'

unfoldable pub alnum : Text → Text
alnum [] = []
alnum (c ∷ cs) = let rest = alnum cs in if is_alnum c then c ∷ rest else rest

-- `_key`
unfoldable pub key : Text → Text
unfolding alnum lower
key name = alnum (lower name)

-- `_BY_KEY.get(k)`: the documented names have distinct keys.
unfoldable pub by_key : Text → List Text → Option Text
unfolding key text_eq
by_key k [] = none
by_key k (n ∷ ns) = if text_eq (key n) k then some n else by_key k ns

-- `name.replace("_", "/")`
unfoldable pub slashed : Text → Text
slashed [] = []
slashed (c ∷ cs) = (if c == b'_' then b'/' else c) ∷ slashed cs

abbrev named : Option Text → Text → Text
named none other = other
named (some n) other = n

unfoldable pub canonical : Text → Text
unfolding by_key slashed
canonical name = named (by_key (key name) category_names) (slashed name)

-- `scores`
abbrev pub Scores : Type 0
Scores = List (Text × ℕ)

unfoldable pub score_of : Text → Scores → ℕ
unfolding text_eq
score_of k [] = 0
score_of k ((j, s) ∷ m) = if text_eq j k then s else score_of k m

unfoldable pub raise_score : Text → ℕ → Scores → Scores
unfolding text_eq
raise_score k s [] = (k, s) ∷ []
raise_score k s ((j, t) ∷ m) =
    let rest = raise_score k s m in if text_eq j k then (j, max t s) ∷ m else (j, t) ∷ rest

abbrev pub or_zero : Option ℕ → ℕ
or_zero none = 0
or_zero (some s) = s

unfoldable pub collect_scores : List (Text × Option ℕ) → Scores → Scores
unfolding canonical raise_score
collect_scores [] m = m
collect_scores ((n, s) ∷ raw) m = collect_scores raw (raise_score (canonical n) (or_zero s) m)

unfoldable pub member : Text → List Text → Bool
unfolding text_eq
member n [] = false
member n (k ∷ ks) = text_eq k n || member n ks

unfoldable pub add_name : Text → List Text → List Text
unfolding member
add_name n ns = if member n ns then ns else n ∷ ns

unfoldable pub flagged_names : List (Text × Bool) → List Text
unfolding canonical add_name
flagged_names [] = []
flagged_names ((n, hit) ∷ raw) =
    let rest = flagged_names raw in if hit then add_name (canonical n) rest else rest

unfoldable pub scored_names : ℕ → Scores → List Text → List Text
unfolding add_name
scored_names least [] ns = ns
scored_names least ((n, s) ∷ m) ns =
    let rest = scored_names least m ns in if leb least s then add_name n rest else rest

-- `sorted(names, key=lambda name: -scores.get(name, 0.0))`
unfoldable pub place : Scores → Text → List Text → List Text
unfolding score_of
place m n [] = n ∷ []
place m n (k ∷ ks) =
    let rest = place m n ks in if leb (score_of k m) (score_of n m) then n ∷ k ∷ ks else k ∷ rest

unfoldable pub worst_first : Scores → List Text → List Text
unfolding place
worst_first m [] = []
worst_first m (n ∷ ns) = place m n (worst_first m ns)

unfoldable pub worst : Scores → ℕ
worst [] = 0
worst ((n, s) ∷ m) = max s (worst m)

-- `next((name for name in tripped if …), None)`
unfoldable pub first : (Text → Bool) → List Text → Option Text
first f [] = none
first f (n ∷ ns) = if f n then some n else first f ns

abbrev pub judged : Scores → List Text → Option Text → Option Text → Verdict
judged m tripped (some z) c = record {
  action = block;
  categories = tripped;
  score = worst m;
  detail = blocked_for z tripped;
}
judged m tripped none (some c) = record {
  action = block;
  categories = tripped;
  score = worst m;
  detail = certain_of c (score_of c m);
}
judged m [] none none = record { action = allow; categories = []; score = worst m; detail = silent }
judged m (n ∷ ns) none none = record {
  action = review;
  categories = n ∷ ns;
  score = worst m;
  detail = flagged (n ∷ ns);
}

-- `_classify`, on the provider's result
unfoldable pub classify : Policy → Result → Verdict
unfolding collect_scores flagged_names scored_names worst_first first
classify p r =
    let m = collect_scores r.category_scores [] in
    let tripped = worst_first m (scored_names p.review_score m (flagged_names r.categories)) in
    judged m tripped (first (λ n. member n p.zero_tolerance) tripped)
      (first (λ n. leb p.block_score (score_of n m)) tripped)

-- What became of the call: an answer, a time-out, or another failure.
pub data Reply : Type 0 where
  answered : Result → Reply
  late broken : Reply

abbrev pub passed : Verdict
passed = record { action = allow; categories = []; score = 0; detail = silent }

abbrev unsure : Detail → Verdict
unsure d = record { action = review; categories = []; score = 0; detail = d }

abbrev replied : Policy → Reply → Verdict
replied p (answered r) = classify p r
replied p late = unsure timed_out
replied p broken = unsure failed

abbrev is_blank : Option Text → Bool
is_blank none = true
is_blank (some t) = elim (strip t) [ [] ↦ true | c ∷ cs ↦ false ]

-- `screen`: the text, how many images, whether a key is set, and the provider's reply.
unfoldable pub screen : Policy → Option Text → ℕ → Bool → Reply → Verdict
unfolding classify strip
screen p text images enabled reply =
    if is_blank text && images == 0 then passed else if not enabled then passed else replied p reply
