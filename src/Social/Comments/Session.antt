-- ===== src/Social/Comments/Session.antt =====
-- Any sequence of calls (comments.py).
use loupe_backend.Prelude.{ℕ, Bool, true, false, Option, List, [], ◌∷◌}
use loupe_backend.Prelude.Text.{Text}
use loupe_backend.Prelude.Tables.{Table}
use loupe_backend.Social.Graph.{SocialProfile, find_profile, is_live, follows?}
use loupe_backend.Social.Graph
use loupe_backend.Social.Comments.{Post, Db, add_comment, delete_comment, like_comment}

-- Any call, and any change elsewhere of the graph and the posts.
pub data Event : Type 0 where
  adds : ℕ → ℕ → Bool → ℕ → Text → Option ℕ → Event
  deletes : ℕ → Bool → ℕ → Event
  likes unlikes : ℕ → ℕ → Event
  elsewhere : Graph.Db → Table Post → Event

unfoldable pub act : Db → Event → Db
unfolding add_comment delete_comment like_comment
act db (adds author id passes post body parent) =
    (add_comment db author id passes post body parent).1
act db (deletes viewer staff id) = (delete_comment db viewer staff id).1
act db (likes viewer id) = (like_comment db viewer id true).1
act db (unlikes viewer id) = (like_comment db viewer id false).1
act db (elsewhere graph posts) = record db { graph = graph; posts = posts }

unfoldable pub run : Db → List Event → Db
unfolding act
run db [] = db
run db (e ∷ es) = run (act db e) es
