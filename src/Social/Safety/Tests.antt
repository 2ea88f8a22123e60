-- ===== src/Social/Safety/Tests.antt =====
-- Runs of the review queue.
use loupe_backend.Prelude.{
  ℕ, ◌≤◌, ◌≡◌, refl, true, false, none, some, List, [], ◌∷◌, ◌++◌, arith, length,
}
use loupe_backend.Prelude.Text.{codes, text_eq}
use loupe_backend.Social.Moderation.{review, block, Verdict, flagged}
use loupe_backend.Social.Safety.{
  Target, post, comment, profile, store_review, collection, story, story_comment, auto, report,
  by_reporter, by_classifier, same_target, Case, Post, Profile, Story, Db, Status, open_, removed,
}
use loupe_backend.Social.Safety.Report.{ReportCreate, report_content}
use loupe_backend.Social.Safety.Resolve.{resolve, stamp, resolved, answers, stamp_cases}
use loupe_backend.Prelude.Tables.{find}
use loupe_backend.Social.Safety.Cases.{
  Call, enforcing, reporting, resolving, run, all_cases, sound, run-sound,
}
use loupe_backend.Social.Safety.Once.{mine, Once, run-Once}
use loupe_backend.Social.Safety.Answers.{open_about, open_about-resolve, find-resolve}
use loupe_backend.Social.Safety.Takedown.{shown, goes_with, shown-resolve}

-- Member 1's post 10, story 30 and picture; member 2's comment 20, member 3's reply to it and comment 22.
abbrev start : Db
start = record {
  cases = [];
  posts = (10, record { author_id = 1; body = some (codes "fake slab"); deleted_at = none }) ∷ [];
  comments =
      (20, record { parent_id = none; author_id = 2; body = codes "hm" })
      ∷ (21, record { parent_id = some 20; author_id = 3; body = codes "yes" })
      ∷ (22, record { parent_id = none; author_id = 3; body = codes "no" })
      ∷ [];
  profiles =
      (
        1,
        record {
          bio = none;
          avatar_key = some (codes "a1");
          avatar_content_type = some (codes "image/png");
          avatar_version = none;
        },
      )
      ∷ [];
  stories = (30, record { deleted_at = none }) ∷ [];
  story_comments = [];
  next_id = 100;
}

abbrev complaint : Target → ℕ → ReportCreate
complaint kind id = record {
  target_type = kind;
  target_id = id;
  reason = codes "counterfeit";
  note = none;
}

abbrev doubt : Verdict
doubt = record {
  action = review;
  categories = codes "hate" ∷ [];
  score = 6000;
  detail = flagged (codes "hate" ∷ []);
}

abbrev refusal : Verdict
refusal = record doubt { action = block }

abbrev today : List Call
today =
    reporting 2 (complaint post 10)
    ∷ reporting 3 (complaint post 10)
    ∷ reporting 2 (complaint post 10)
    ∷ enforcing 1 store_review 40 doubt none none 5
    ∷ enforcing 1 post 11 refusal none none 6
    ∷ reporting 1 (complaint post 10)
    ∷ []

abbrev queue : Db
queue = run start today

queue_len : length queue.cases ≡ 4
unfolding run report_content loupe_backend.Social.Safety.enforce
queue_len = refl

run-sound_example :
    all_cases sound (run start (today ++ resolving 9 100 (codes "remove") 7 ∷ [])).cases ≡ true
unfolding all_cases
run-sound_example = run-sound start (today ++ resolving 9 100 (codes "remove") 7 ∷ []) refl

none-Once : Once start.cases
unfolding mine
none-Once kind id who = omega arith

reported_once : mine post 10 2 queue.cases ≤ 1
reported_once = run-Once start today none-Once post 10 2

abbrev about : Target → ℕ → ℕ → Case
about kind id who = record {
  target_type = kind;
  target_id = id;
  author_id = 1;
  source = report;
  reason = codes "counterfeit";
  detail = by_reporter none;
  score = none;
  excerpt = none;
  reporter_id = some who;
  status = open_;
  resolved_by_id = none;
  resolved_at = none;
}

abbrev reviewed : Case
reviewed = record (about store_review 40 2) {
  source = auto;
  detail = by_classifier (flagged (codes "hate" ∷ []));
  score = some 6000;
  reporter_id = none;
}

-- Two reports about post 10, one about a picture, a doubt about a store's review and a report of a comment.
abbrev monday : Db
monday = record start {
  cases =
      (100, about post 10 2)
      ∷ (101, about post 10 3)
      ∷ (102, about profile 1 3)
      ∷ (103, reviewed)
      ∷ (104, about comment 20 3)
      ∷ [];
}

case_100 : find 100 monday.cases ≡ some (about post 10 2)
unfolding find
case_100 = refl

case_101 : find 101 monday.cases ≡ some (about post 10 3)
unfolding find
case_101 = refl

case_103 : find 103 monday.cases ≡ some reviewed
unfolding find
case_103 = refl

open_about-resolve_example :
    open_about post 10 (resolve monday 9 101 (codes "dismiss") 7).1.cases ≡ 0
unfolding text_eq
open_about-resolve_example =
    open_about-resolve monday 9 101 7 (codes "dismiss") (about post 10 3) case_101 refl

find-resolve_run :
    find 102 (resolve monday 9 100 (codes "remove") 7).1.cases ≡ some (about profile 1 3)
unfolding find answers text_eq
find-resolve_run = find-resolve monday 9 100 7 (codes "remove") (about post 10 2) refl refl 102

case_104 : find 104 monday.cases ≡ some (about comment 20 3)
unfolding find
case_104 = refl

-- The reply goes with its comment.
shown-resolve_example : shown (resolve monday 9 104 (codes "remove") 7).1 comment 21 ≡ false
unfolding shown goes_with same_target
shown-resolve_example = shown-resolve monday 9 104 7 (about comment 20 3) case_104 comment 21

other_kept : shown (resolve monday 9 104 (codes "remove") 7).1 comment 22 ≡ true
unfolding shown resolve text_eq
other_kept = refl

picture_kept : shown (resolve monday 9 100 (codes "remove") 7).1 profile 1 ≡ true
unfolding shown resolve text_eq
picture_kept = refl

-- A store's review is stamped as removed, and nothing is taken down.
review_stamped : resolve monday 9 103 (codes "remove") 7 ≡ (
  resolved (stamp removed 9 7 reviewed),
  record monday { cases = stamp_cases (answers 103 store_review 40) removed 9 7 monday.cases },
)
unfolding resolve text_eq
review_stamped = refl
