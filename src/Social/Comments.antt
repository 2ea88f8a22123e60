-- ===== src/Social/Comments.antt =====
-- Comment threads (app/social/services/comments.py, base_post_query of feed_common.py): over the social graph,
-- the posts, and the comments in the order of their creation.
pub mod Thread
pub mod Session
pub mod Flat
pub mod Pages
pub mod Likes
mod Tests
use loupe_backend.Prelude.{
  ℕ, ◌+◌, Bool, true, false, ◌&&◌, ◌||◌, not, Option, none, some, List, [], ◌∷◌, ◌++◌, ltb, ◌==◌,
  if◌then◌else◌, is_some, length,
}
use loupe_backend.Prelude.Text.{Text, strip}
use loupe_backend.Prelude.Tables.{Table, find}
use loupe_backend.Social.Graph.{SocialProfile, find_profile, is_live, follows?}
use loupe_backend.Social.Graph

pub record Post : Type 0 where
  pub author_id : ℕ
  pub deleted_at : Option ℕ

pub record Comment : Type 0 where
  pub post_id : ℕ
  pub author_id : ℕ
  pub parent_id : Option ℕ
  pub body : Text

pub record Like : Type 0 where
  pub user_id : ℕ
  pub comment_id : ℕ

pub record Db : Type 0 where
  pub graph : Graph.Db
  pub posts : Table Post
  pub comments : Table Comment
  pub likes : List Like

pub data Answer : Type 0 where
  done post_not_found comment_not_found no_username empty_body too_long refused forbidden
        integrity_error :
      Answer
  counted : ℕ → Answer

abbrev pub max_comment_body : ℕ
max_comment_body = 1000

abbrev pub shows_to : Db → ℕ → Option SocialProfile → Bool
shows_to db viewer none = false
shows_to db viewer (some p) =
    is_live p.user_id db.graph.users
    && (not p.is_private || p.user_id == viewer || follows? viewer p.user_id db.graph.follows)

abbrev pub is_visible : Db → ℕ → Option Post → Bool
is_visible db viewer none = false
is_visible db viewer (some p) =
    not (is_some p.deleted_at) && shows_to db viewer (find_profile p.author_id db.graph.profiles)

-- Whether `_visible_post` finds the post, and does not answer 404.
unfoldable pub visible_post : Db → ℕ → ℕ → Bool
unfolding find find_profile is_live follows?
visible_post db viewer id = is_visible db viewer (find id db.posts)

abbrev pub thread_of : ℕ → Comment → ℕ
thread_of id c = elim c.parent_id [ none ↦ id | some p ↦ p ]

-- The parent that a comment gets: that of the one replied to, or that one itself. The outer none is a 404.
abbrev pub flattened : ℕ → ℕ → Option Comment → Option (Option ℕ)
flattened post parent none = none
flattened post parent (some c) =
    if c.post_id == post then some (some (thread_of parent c)) else none

unfoldable pub parent_for : Db → ℕ → Option ℕ → Option (Option ℕ)
unfolding find
parent_for db post none = some none
parent_for db post (some parent) = flattened post parent (find parent db.comments)

abbrev pub is_empty : Text → Bool
is_empty [] = true
is_empty (c ∷ cs) = false

abbrev pub insert_comment : Db → ℕ → ℕ → ℕ → Text → Option (Option ℕ) → Answer × Db
insert_comment db id author post body none = (comment_not_found, db)
insert_comment db id author post body (some parent) =
    if is_some (find id db.comments) then (integrity_error, db) else (
      done,
      record db {
        comments =
            db.comments
            ++ (id, record { post_id = post; author_id = author; parent_id = parent; body = body })
              ∷ [];
      },
    )

-- `add_comment`, on the id of the new row and on whether the moderation passes the text.
unfoldable pub add_comment : Db → ℕ → ℕ → Bool → ℕ → Text → Option ℕ → Answer × Db
unfolding visible_post find_profile strip parent_for find
add_comment db author id passes post body parent =
    let text = strip body in
    if not (visible_post db author post)
    then (post_not_found, db)
    else if not (is_some (find_profile author db.graph.profiles))
    then (no_username, db)
    else if is_empty text
    then (empty_body, db)
    else if ltb max_comment_body (length text)
    then (too_long, db)
    else if not passes
    then (refused, db)
    else insert_comment db id author post text (parent_for db post parent)

abbrev pub replies_to : ℕ → Comment → Bool
replies_to id c = elim c.parent_id [ none ↦ false | some p ↦ p == id ]

-- The comment and its replies go with it; replies have none of their own.
unfoldable pub delete_thread : ℕ → Table Comment → Table Comment
delete_thread id [] = []
delete_thread id ((i, c) ∷ t) =
    let rest = delete_thread id t in if i == id || replies_to id c then rest else (i, c) ∷ rest

abbrev pub is_gone : ℕ → Option Comment → ℕ → Bool
is_gone id none i = i == id
is_gone id (some c) i = i == id || replies_to id c

-- And the likes of those comments.
unfoldable pub delete_likes : ℕ → Table Comment → List Like → List Like
unfolding find
delete_likes id t [] = []
delete_likes id t (l ∷ ls) =
    let rest = delete_likes id t ls in
    if is_gone id (find l.comment_id t) l.comment_id then rest else l ∷ rest

abbrev pub wrote_post : ℕ → Option Post → Bool
wrote_post viewer none = false
wrote_post viewer (some p) = p.author_id == viewer

abbrev pub delete_found : Db → ℕ → Bool → ℕ → Option Comment → Answer × Db
delete_found db viewer staff id none = (comment_not_found, db)
delete_found db viewer staff id (some c) =
    if c.author_id == viewer || wrote_post viewer (find c.post_id db.posts) || staff
    then (
      done,
      record db {
        comments = delete_thread id db.comments;
        likes = delete_likes id db.comments db.likes;
      },
    )
    else (forbidden, db)

unfoldable pub delete_comment : Db → ℕ → Bool → ℕ → Answer × Db
unfolding find delete_thread delete_likes
delete_comment db viewer staff id = delete_found db viewer staff id (find id db.comments)

unfoldable pub likes? : ℕ → ℕ → List Like → Bool
likes? u c [] = false
likes? u c (l ∷ ls) = l.user_id == u && l.comment_id == c || likes? u c ls

unfoldable pub like_count : ℕ → List Like → ℕ
like_count c [] = 0
like_count c (l ∷ ls) = (if l.comment_id == c then 1 else 0) + like_count c ls

unfoldable pub unliked : ℕ → ℕ → List Like → List Like
unliked u c [] = []
unliked u c (l ∷ ls) =
    let rest = unliked u c ls in if l.user_id == u && l.comment_id == c then rest else l ∷ rest

unfoldable pub set_like : Bool → ℕ → ℕ → List Like → List Like
unfolding likes? unliked
set_like liked u c ls =
    if liked
    then if likes? u c ls then ls else record { user_id = u; comment_id = c } ∷ ls
    else unliked u c ls

abbrev pub like_found : Db → ℕ → ℕ → Bool → Option Comment → Answer × Db
like_found db viewer id liked none = (comment_not_found, db)
like_found db viewer id liked (some c) =
    if visible_post db viewer c.post_id
    then (let ls = set_like liked viewer id db.likes in
        (counted (like_count id ls), record db { likes = ls }))
    else (post_not_found, db)

unfoldable pub like_comment : Db → ℕ → ℕ → Bool → Answer × Db
unfolding find visible_post set_like like_count
like_comment db viewer id liked = like_found db viewer id liked (find id db.comments)
