-- ===== src/Social/Comments/Thread.antt =====
-- The pages of a comment thread (comments.py: list_comments, list_replies, _inline_replies).
use loupe_backend.Prelude.{
  ℕ, zero, suc, ◌+◌, Bool, ◌&&◌, not, Option, none, some, List, [], ◌∷◌, ltb, ◌==◌, if◌then◌else◌,
  is_some, length, take, drop,
}
use loupe_backend.Prelude.Tables.{Table, find}
use loupe_backend.Social.Graph.{find_profile, is_live}
use loupe_backend.Social.Comments.{Comment, Db, visible_post, replies_to}

pub record Page : Type 0 where
  pub items : List ℕ
  pub next_cursor : Option ℕ
  pub total : ℕ

-- `_comment_query`: the author has a profile and is neither deleted nor banned.
unfoldable pub has_author : Db → Comment → Bool
unfolding find_profile is_live
has_author db c =
    is_some (find_profile c.author_id db.graph.profiles) && is_live c.author_id db.graph.users

abbrev pub is_top : ℕ → Comment → Bool
is_top post c = c.post_id == post && not (is_some c.parent_id)

-- The ids of the rows that pass a test, in order.
unfoldable pub select : (Comment → Bool) → Table Comment → List ℕ
select p [] = []
select p ((i, c) ∷ t) = let rest = select p t in if p c then i ∷ rest else rest

abbrev pub top_rows : Db → ℕ → List ℕ
top_rows db post = select (λ (c : Comment). is_top post c && has_author db c) db.comments

abbrev pub reply_rows : Db → ℕ → List ℕ
reply_rows db id = select (λ (c : Comment). replies_to id c && has_author db c) db.comments

abbrev pub page_of : ℕ → ℕ → ℕ → List ℕ → Page
page_of offset limit total rows =
    let got = take (limit + 1) (drop offset rows) in
    record {
      items = take limit got;
      next_cursor = (if ltb limit (length got) then some (offset + limit) else none);
      total = total;
    }

-- The total counts every comment of the post, replies too, whoever wrote it.
unfoldable pub list_comments : Db → ℕ → ℕ → ℕ → ℕ → Option Page
unfolding visible_post select has_author
list_comments db viewer post offset limit =
    if visible_post db viewer post
    then some (
        page_of offset limit (length (select (λ (c : Comment). c.post_id == post) db.comments))
          (top_rows db post))
    else none

abbrev pub replies_of : Db → ℕ → ℕ → ℕ → ℕ → Option Comment → Option Page
replies_of db viewer id offset limit none = none
replies_of db viewer id offset limit (some c) =
    if visible_post db viewer c.post_id
    then some
        (page_of offset limit (length (select (replies_to id) db.comments)) (reply_rows db id))
    else none

unfoldable pub list_replies : Db → ℕ → ℕ → ℕ → ℕ → Option Page
unfolding find visible_post select has_author
list_replies db viewer id offset limit = replies_of db viewer id offset limit (find id db.comments)

abbrev pub inline_count : ℕ
inline_count = 2

-- The rows of the first ids, from those that pass a test.
unfoldable pub first_rows : ℕ → (Comment → Bool) → Table Comment → Table Comment
first_rows zero p t = []
first_rows (suc n) p [] = []
first_rows (suc n) p ((i, c) ∷ t) =
    if p c then (i, c) ∷ first_rows n p t else first_rows (suc n) p t

-- `_inline_replies` for one parent: the ranks count replies of every author.
unfoldable pub inline_replies : Db → ℕ → List ℕ
unfolding first_rows select has_author
inline_replies db id = select (has_author db) (first_rows inline_count (replies_to id) db.comments)
