-- ===== src/Social/Safety/Report.antt =====
-- A user's report of content (app/social/services/safety.py): `report`.
use loupe_backend.Prelude.{
  ℕ, Bool, false, ◌&&◌, ◌||◌, not, Option, none, some, [], ◌∷◌, ◌==◌, if◌then◌else◌, is_some, take,
}
use loupe_backend.Prelude.Text.{Text, strip}
use loupe_backend.Social.Moderation.{member}
use loupe_backend.Prelude.Tables.{Table, find}
use loupe_backend.Social.Safety.{
  Target, Case, Post, Comment, Profile, Db, same_target, is_reportable, report_reasons,
  excerpt_chars, or_none, or_blank, insert_case, post, comment, report, open_, by_reporter,
}

abbrev live_author : Option Post → Option ℕ
live_author none = none
live_author (some p) = if is_some p.deleted_at then none else some p.author_id

abbrev comment_author : Option Comment → Option ℕ
comment_author none = none
comment_author (some c) = some c.author_id

abbrev own_id : ℕ → Option Profile → Option ℕ
own_id id none = none
own_id id (some p) = some id

-- `_author_of`
unfoldable pub author_of : Db → Target → ℕ → Option ℕ
unfolding find
author_of db post id = live_author (find id db.posts)
author_of db comment id = comment_author (find id db.comments)
author_of db _ id = own_id id (find id db.profiles)

abbrev post_text : Option Post → Option Text
post_text none = none
post_text (some p) = some (take excerpt_chars (or_blank p.body))

abbrev comment_text : Option Comment → Option Text
comment_text none = none
comment_text (some c) = some (take excerpt_chars c.body)

abbrev profile_text : Option Profile → Option Text
profile_text none = none
profile_text (some p) = some (take excerpt_chars (or_blank p.bio))

-- `_excerpt`
unfoldable pub excerpt_of : Db → Target → ℕ → Option Text
unfolding find
excerpt_of db post id = post_text (find id db.posts)
excerpt_of db comment id = comment_text (find id db.comments)
excerpt_of db _ id = profile_text (find id db.profiles)

pub record ReportCreate : Type 0 where
  pub target_type : Target
  pub target_id : ℕ
  pub reason : Text
  pub note : Option Text

pub data Reported : Type 0 where
  unknown_type unknown_reason nothing_there own_content already filed : Reported

abbrev pub is_by : ℕ → Option ℕ → Bool
is_by who none = false
is_by who (some r) = r == who

-- A case that this reporter filed about this target.
unfoldable pub is_mine : Target → ℕ → ℕ → Case → Bool
unfolding same_target
is_mine kind id who c =
    same_target c.target_type kind && c.target_id == id && is_by who c.reporter_id

unfoldable pub has_mine : Target → ℕ → ℕ → Table Case → Bool
unfolding is_mine
has_mine kind id who [] = false
has_mine kind id who ((i, c) ∷ cs) = is_mine kind id who c || has_mine kind id who cs

abbrev pub report_case : Db → ℕ → ReportCreate → ℕ → Case
report_case db reporter p author = record {
  target_type = p.target_type;
  target_id = p.target_id;
  author_id = author;
  source = report;
  reason = p.reason;
  detail = by_reporter (or_none (take 1000 (strip (or_blank p.note))));
  score = none;
  excerpt = excerpt_of db p.target_type p.target_id;
  reporter_id = some reporter;
  status = open_;
  resolved_by_id = none;
  resolved_at = none;
}

abbrev pub report_on : Db → ℕ → ReportCreate → Option ℕ → Reported × Db
report_on db reporter p none = (nothing_there, db)
report_on db reporter p (some author) =
    if author == reporter
    then (own_content, db)
    else if has_mine p.target_type p.target_id reporter db.cases
    then (already, db)
    else (filed, insert_case db (report_case db reporter p author))

-- `report`
unfoldable pub report_content : Db → ℕ → ReportCreate → Reported × Db
unfolding is_reportable member author_of excerpt_of has_mine insert_case strip
report_content db reporter p =
    if not (is_reportable p.target_type)
    then (unknown_type, db)
    else if not (member p.reason report_reasons)
    then (unknown_reason, db)
    else report_on db reporter p (author_of db p.target_type p.target_id)
