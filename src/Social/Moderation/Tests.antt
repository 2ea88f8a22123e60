-- ===== src/Social/Moderation/Tests.antt =====
-- Runs of the classifier's policy.
use loupe_backend.Prelude.{◌≡◌, refl, true, false, none, some, [], ◌∷◌, arith}
use loupe_backend.Prelude.Text.{codes}
use loupe_backend.Social.Moderation.{
  allow, review, block, Result, late, balanced, identity, classify, screen,
}
use loupe_backend.Social.Moderation.Rule.{ruling, classify_rules}

-- A bio that the provider flags for violence without being sure of it.
abbrev bio : Result
bio = record {
  category_scores =
      (codes "violence", some 3100) ∷ (codes "self_harm", some 12) ∷ (codes "hate", none) ∷ [];
  categories = (codes "violence", true) ∷ (codes "hate", false) ∷ [];
}

abbrev slur : Result
slur = record {
  category_scores = (codes "hate", some 4200) ∷ [];
  categories = (codes "hate", true) ∷ [];
}

classify_rules_example : (classify identity bio).action ≡ ruling identity bio
classify_rules_example = classify_rules identity bio (omega arith) (omega arith)

-- Text that becomes an identity is not refused whenever it trips.
bio-review : (classify identity bio).action ≡ review
unfolding classify
bio-review = refl

slur-block : (classify identity slur).action ≡ block
unfolding classify
slur-block = refl

slur-post-review : (classify balanced slur).action ≡ review
unfolding classify
slur-post-review = refl

late-review : (screen balanced (some (codes "hi")) 0 true late).action ≡ review
unfolding screen
late-review = refl

blank-allow : (screen balanced (some (codes "  ")) 0 true late).action ≡ allow
unfolding screen
blank-allow = refl
