-- ===== src/Social/Safety/Resolve.antt =====
-- A moderator's answer to a case: `resolve` with `_remove_target`, and the tabs of the queue.
use loupe_backend.Prelude.{
  ℕ, suc, Bool, true, false, ◌&&◌, ◌||◌, not, Option, none, some, [], ◌∷◌, ◌==◌, if◌then◌else◌,
  is_some,
}
use loupe_backend.Prelude.Text.{Text, codes, text_eq}
use loupe_backend.Social.Safety.{
  Target, post, comment, profile, store_review, collection, story, story_comment, Source, auto,
  report, Status, open_, dismissed, removed, Case, Post, Comment, Profile, Story, Db, same_target,
}
use loupe_backend.Prelude.Tables.{Table, find, change}

abbrev pub is_open : Status → Bool
is_open open_ = true
is_open _ = false

abbrev pub is_removed : Status → Bool
is_removed removed = true
is_removed _ = false

abbrev pub is_dismissed : Status → Bool
is_dismissed dismissed = true
is_dismissed _ = false

abbrev pub is_auto : Source → Bool
is_auto auto = true
is_auto report = false

-- The tabs of the queue, the pseudo-status "blocked" included.
pub data Tab : Type 0 where
  open_tab dismissed_tab removed_tab blocked_tab : Tab

-- `_status_conditions`
unfoldable pub in_tab : Tab → Case → Bool
in_tab blocked_tab c = is_removed c.status && is_auto c.source && not (is_some c.resolved_by_id)
in_tab removed_tab c = is_removed c.status && is_some c.resolved_by_id
in_tab open_tab c = is_open c.status
in_tab dismissed_tab c = is_dismissed c.status

-- A picture that is taken down: the row stops pointing at it, and its version moves on.
unfoldable pub clear_avatar : Profile → Profile
clear_avatar p = record p {
  avatar_key = none;
  avatar_content_type = none;
  avatar_version = some (suc (elim p.avatar_version [ none ↦ 0 | some v ↦ v ]));
}

unfoldable pub hide_post : ℕ → Post → Post
hide_post now p = record p { deleted_at = some now }

unfoldable pub hide_story : ℕ → Story → Story
hide_story now s = if is_some s.deleted_at then s else record s { deleted_at = some now }

-- Whether a comment goes with another one: it is that one, or a reply to it. The foreign key of the parent
-- cascades, and replies have no replies.
abbrev pub is_gone : ℕ → ℕ → Option Comment → Bool
is_gone id i none = i == id
is_gone id i (some c) = i == id || elim c.parent_id [ none ↦ false | some p ↦ p == id ]

unfoldable pub delete_gone : ℕ → Table Comment → Table Comment → Table Comment
unfolding find
delete_gone id t [] = []
delete_gone id t ((i, c) ∷ r) =
    let rest = delete_gone id t r in if is_gone id i (find i t) then rest else (i, c) ∷ rest

-- The comment of this id with its replies.
unfoldable pub delete_thread : ℕ → Table Comment → Table Comment
unfolding delete_gone
delete_thread id t = delete_gone id t t

-- `_remove_target`
unfoldable pub remove_target : Db → Target → ℕ → ℕ → Db
unfolding change delete_thread clear_avatar hide_post hide_story
remove_target db post id now = record db { posts = change id (hide_post now) db.posts }
remove_target db comment id now = record db { comments = delete_thread id db.comments }
remove_target db profile id now = record db { profiles = change id clear_avatar db.profiles }
remove_target db story id now = record db { stories = change id (hide_story now) db.stories }
remove_target db story_comment id now = record db {
  story_comments = change id (hide_story now) db.story_comments;
}
remove_target db store_review id now = db
remove_target db collection id now = db

unfoldable pub stamp : Status → ℕ → ℕ → Case → Case
stamp s admin now c = record c { status = s; resolved_by_id = some admin; resolved_at = some now }

-- The case itself and every other open case about its target.
unfoldable pub answers : ℕ → Target → ℕ → ℕ → Case → Bool
unfolding same_target
answers case_id kind id i c =
    i == case_id || (same_target c.target_type kind && c.target_id == id && is_open c.status)

unfoldable pub stamp_cases : (ℕ → Case → Bool) → Status → ℕ → ℕ → Table Case → Table Case
unfolding stamp
stamp_cases p s admin now [] = []
stamp_cases p s admin now ((i, c) ∷ cs) =
    let rest = stamp_cases p s admin now cs in (i, if p i c then stamp s admin now c else c) ∷ rest

pub data Resolved : Type 0 where
  case_not_found unknown_action : Resolved
  resolved : Case → Resolved

abbrev close : Db → ℕ → ℕ → Case → Status → ℕ → Resolved × Db
close db admin case_id c s now = (
  resolved (stamp s admin now c),
  record db {
    cases = stamp_cases (answers case_id c.target_type c.target_id) s admin now db.cases;
  },
)

abbrev pub resolve_case : Db → ℕ → ℕ → Text → ℕ → Option Case → Resolved × Db
resolve_case db admin case_id action now none = (case_not_found, db)
resolve_case db admin case_id action now (some c) =
    if text_eq action (codes "remove")
    then close (remove_target db c.target_type c.target_id now) admin case_id c removed now
    else if text_eq action (codes "dismiss")
    then close db admin case_id c dismissed now
    else (unknown_action, db)

-- `resolve`
unfoldable pub resolve : Db → ℕ → ℕ → Text → ℕ → Resolved × Db
unfolding find remove_target stamp_cases answers
resolve db admin case_id action now =
    resolve_case db admin case_id action now (find case_id db.cases)
