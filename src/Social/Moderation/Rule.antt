-- ===== src/Social/Moderation/Rule.antt =====
-- What decides a verdict: the provider's flags and scores, whatever their order (moderation.py,
-- `_classify`).
use loupe_backend.Prelude.{
  ◌≤◌, ◌<◌, ◌≡◌, refl, sym, ◌∙◌, Bool, true, false, ◌||◌, Option, none, some, List, [], ◌∷◌, arith,
  leb, if◌then◌else◌, is_some,
}
use loupe_backend.Prelude.Text.{Text}
use loupe_backend.Social.Moderation.{
  Action, allow, review, block, Policy, Result, Scores, score_of, collect_scores, member,
  flagged_names, scored_names, worst_first, first, judged, classify,
}
use loupe_backend.Social.Moderation.Names.{
  entries_scored, Distinct-Answers, always, any, any-flagged_names, any-scored_names,
  any-worst_first, any_entry, any_entry-score_of, any_flag, any_flag-score_of, any_score,
  collect_scores-Distinct, is_some-first,
}

-- The rule by the policy's list and thresholds.
unfoldable pub ruling : Policy → Result → Action
unfolding any_flag any_score member
ruling p r =
    let in_zero = λ (n : Text). member n p.zero_tolerance in
    if any_flag in_zero r.categories || any_score p.review_score in_zero r.category_scores
    then block
    else if any_score p.block_score always r.category_scores
    then block
    else if any_flag always r.categories || any_score p.review_score always r.category_scores
    then review
    else allow

judged_action :
    (m : Scores) (ns : List Text) (z c : Option Text)
    → (judged m ns z c).action ≡ (
        if is_some z
        then block
        else if is_some c
        then block
        else if any always ns
        then review
        else allow)
unfolding any
judged_action m ns (some z) c = refl
judged_action m ns none (some c) = refl
judged_action m [] none none = refl
judged_action m (n ∷ ns) none none = refl

joined : (a b : Bool) → (a ≡ true → b ≡ true) → (b || a) ≡ b
joined true true h = refl
joined true false h = sym (h refl)
joined false true h = refl
joined false false h = refl

abbrev tripped_names : Policy → Result → List Text
tripped_names p r =
    let m = collect_scores r.category_scores [] in
    worst_first m (scored_names p.review_score m (flagged_names r.categories))

any_tripped :
    (f : Text → Bool) (p : Policy) (r : Result)
    → any f (tripped_names p r)
      ≡ (any_flag f r.categories || any_score p.review_score f r.category_scores)
any_tripped f p r =
    let m = collect_scores r.category_scores [] in
    let flags = flagged_names r.categories in
    ground (
      arith,
      any-worst_first f m (scored_names p.review_score m flags),
      any-scored_names f p.review_score m flags,
      any-flagged_names f r.categories,
      entries_scored p.review_score f r.category_scores,
    )

certain_tripped :
    (p : Policy) (r : Result)
    → 0 < p.block_score
    → p.review_score ≤ p.block_score
    → any
        (λ n. leb p.block_score (score_of n (collect_scores r.category_scores [])))
        (tripped_names p r)
      ≡ any_score p.block_score always r.category_scores
certain_tripped p r pos le =
    let m = collect_scores r.category_scores [] in
    let certain = λ (n : Text). leb p.block_score (score_of n m) in
    let flags = flagged_names r.categories in
    let d = Distinct-Answers m (collect_scores-Distinct r.category_scores [] tt) in
    any-worst_first certain m (scored_names p.review_score m flags)
    ∙ any-scored_names certain p.review_score m flags
    ∙ rw
        (
          any_entry-score_of p.review_score p.block_score m m le d,
          any-flagged_names certain r.categories,
        )
        (joined (any_flag certain r.categories) (any_entry p.block_score always m)
            (any_flag-score_of p.block_score m r.categories pos)
          ∙ entries_scored p.block_score always r.category_scores)

-- The verdict follows from the policy's zero-tolerance list and its two scores. With a positive block score
-- that is not below the review score, it blocks exactly if the provider flags a zero-tolerance category or
-- scores one at the review score or more, or scores any category at the block score or more; otherwise it
-- asks for review exactly if anything is flagged or reaches the review score. So, under the policy for
-- identity too, a flag alone on another category that scores below the block score only asks for review,
-- although the comment on that policy says that anything that trips is refused. The order of the answer,
-- repeated names and their spelling play no part.
pub classify_rules :
    (p : Policy) (r : Result)
    → 0 < p.block_score
    → p.review_score ≤ p.block_score
    → (classify p r).action ≡ ruling p r
unfolding classify ruling
classify_rules p r pos le =
    let m = collect_scores r.category_scores [] in
    let tripped = tripped_names p r in
    let zero_ = λ (n : Text). member n p.zero_tolerance in
    let certain = λ (n : Text). leb p.block_score (score_of n m) in
    judged_action m tripped (first zero_ tripped) (first certain tripped)
    ∙ rw
        (
          is_some-first zero_ tripped,
          is_some-first certain tripped,
          any_tripped zero_ p r,
          any_tripped always p r,
          certain_tripped p r pos le,
        )
        refl
