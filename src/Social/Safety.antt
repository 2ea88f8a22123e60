-- ===== src/Social/Safety.antt =====
-- The review queue (app/social/services/safety.py): cases opened by the classifier and by users, and their
-- resolution. Each call is one transaction; a lost race of two reports is not modelled.
pub mod Report
pub mod Resolve
pub mod Cases
pub mod Once
pub mod Answers
pub mod Takedown
mod Tests
use loupe_backend.Prelude.{
  if_elim, ℕ, zero, suc, ◌+◌, ◌-◌, ◌*◌, ◌/◌, ◌%◌, ◌≤◌, ◌<◌, min, max, String, ◌≡◌, refl, sym, ap,
  subst, ◌∙◌, ◌≢◌, ◌↔◌, ◌⊎◌, inl, inr, Bool, true, false, ◌&&◌, ◌||◌, not, Option, none, some, List,
  [], ◌∷◌, ◌++◌, map, arith, str_eq, eq_iff, dec_lt, ℕ_discrete, ltb, leb, ◌==◌, if◌then◌else◌,
  is_some, ltb→lt, lt→ltb, leb→le, ==_iff, Bool-cases, Option-cases, length, take, drop,
  length-append, length-take, length-drop, All, get, put, pop, get-put, get-pop,
}
use loupe_backend.Prelude.Text.{Text, codes}
use loupe_backend.Social.Moderation.{Action, allow, review, block, Verdict, Detail}
use loupe_backend.Prelude.Tables.{Table}

pub data Target : Type 0 where
  post comment profile store_review collection story story_comment : Target

pub data Source : Type 0 where
  auto report : Source

pub data Status : Type 0 where
  open_ dismissed removed : Status

pub data Note : Type 0 where
  by_classifier : Detail → Note
  by_reporter : Option Text → Note

pub record Case : Type 0 where
  pub target_type : Target
  pub target_id : ℕ
  pub author_id : ℕ
  pub source : Source
  pub reason : Text
  pub detail : Note
  pub score : Option ℕ
  pub excerpt : Option Text
  pub reporter_id : Option ℕ
  pub status : Status
  pub resolved_by_id : Option ℕ
  pub resolved_at : Option ℕ

pub record Post : Type 0 where
  pub author_id : ℕ
  pub body : Option Text
  pub deleted_at : Option ℕ

pub record Comment : Type 0 where
  pub parent_id : Option ℕ
  pub author_id : ℕ
  pub body : Text

-- A profile's key is its user's id.
pub record Profile : Type 0 where
  pub bio : Option Text
  pub avatar_key : Option Text
  pub avatar_content_type : Option Text
  pub avatar_version : Option ℕ

-- A story or a comment on one.
pub record Story : Type 0 where
  pub deleted_at : Option ℕ

pub record Db : Type 0 where
  pub cases : Table Case
  pub posts : Table Post
  pub comments : Table Comment
  pub profiles : Table Profile
  pub stories : Table Story
  pub story_comments : Table Story
  pub next_id : ℕ

-- The position of a target type among them.
abbrev pub rank : Target → ℕ
rank post = 0
rank comment = 1
rank profile = 2
rank store_review = 3
rank collection = 4
rank story = 5
rank story_comment = 6

unfoldable pub same_target : Target → Target → Bool
same_target k j = rank k == rank j

-- `TARGET_TYPES`
unfoldable pub is_reportable : Target → Bool
is_reportable post = true
is_reportable comment = true
is_reportable profile = true
is_reportable _ = false

abbrev pub report_reasons : List Text
report_reasons =
    codes "spam"
    ∷ codes "nudity"
    ∷ codes "hate"
    ∷ codes "violence"
    ∷ codes "counterfeit"
    ∷ codes "other"
    ∷ []

abbrev pub excerpt_chars : ℕ
excerpt_chars = 500

-- `text or None`
abbrev pub or_none : Text → Option Text
or_none [] = none
or_none (c ∷ cs) = some (c ∷ cs)

abbrev pub or_blank : Option Text → Text
or_blank none = []
or_blank (some t) = t

unfoldable pub insert_case : Db → Case → Db
insert_case db c = record db { cases = (db.next_id, c) ∷ db.cases; next_id = suc db.next_id }

unfoldable pub join : List Text → Text
join [] = []
join (n ∷ []) = n
join (n ∷ k ∷ ks) = n ++ b',' ∷ join (k ∷ ks)

abbrev action_name : Action → Text
action_name allow = codes "allow"
action_name review = codes "review"
action_name block = codes "block"

abbrev or_action : Text → Action → Text
or_action [] a = action_name a
or_action (c ∷ cs) a = c ∷ cs

abbrev pub is_block : Action → Bool
is_block block = true
is_block _ = false

-- `open_auto_case`
unfoldable pub auto_case : Target → ℕ → ℕ → Verdict → Option Text → ℕ → Case
unfolding join
auto_case kind id author v text now = record {
  target_type = kind;
  target_id = id;
  author_id = author;
  source = auto;
  reason = or_action (take 120 (join v.categories)) v.action;
  detail = by_classifier v.detail;
  score = some v.score;
  excerpt = or_none (take excerpt_chars (or_blank text));
  reporter_id = none;
  status = (if is_block v.action then removed else open_);
  resolved_by_id = none;
  resolved_at = (if is_block v.action then some now else none);
}

-- What a screened write comes to: it goes ahead, or it is refused with 422.
pub data Enforced : Type 0 where
  proceeds refused : Enforced

abbrev pub act_on : Db → Action → Case → Enforced × Db
act_on db allow c = (proceeds, db)
act_on db review c = (proceeds, insert_case db c)
act_on db block c = (refused, insert_case db c)

-- `enforce`, on the screening's verdict; `shown` is the excerpt, which defaults to the text.
unfoldable pub enforce :
    Db → ℕ → Target → ℕ → Verdict → Option Text → Option Text → ℕ → Enforced × Db
unfolding insert_case auto_case
enforce db actor surface id v text shown now =
    act_on db v.action (auto_case surface id actor v (if is_some shown then shown else text) now)
