-- ===== src/Collection.antt =====
-- Collections (app/services/collection/collection_service.py, app/models/collection.py): the binders in
-- which users sort their graded cards. What the moderation of a name or a description says is an argument.
pub mod Calls
pub mod Rows
pub mod Transfer
pub mod Merge
pub mod Session
pub mod Sound
pub mod Listed
pub mod Unique
mod Tests
use loupe_backend.Prelude.{
  ℕ, Bool, false, ◌&&◌, ◌||◌, not, Option, none, some, List, [], ◌∷◌, ◌==◌, if◌then◌else◌, is_some,
}
use loupe_backend.Prelude.Text.{Text}
use loupe_backend.Prelude.Tables.{Table, find, delete}

pub record Collection : Type 0 where
  pub user_id : ℕ
  pub name : Text
  pub description : Option Text
  pub color : Option Text
  pub is_public : Bool

pub record Item : Type 0 where
  pub collection_id : ℕ
  pub graded_card_id : ℕ

-- A graded card, in the columns that collections read.
pub record Card : Type 0 where
  pub user_id : ℕ
  pub deleted_at : Option ℕ

pub record Db : Type 0 where
  pub collections : Table Collection
  pub items : List Item
  pub cards : Table Card

pub record CollectionCreate : Type 0 where
  pub name : Text
  pub description : Option Text
  pub color : Option Text
  pub is_public : Bool

pub record CollectionUpdate : Type 0 where
  pub name : Option Text
  pub description : Option Text
  pub color : Option Text
  pub is_public : Option Bool

-- The answers; a transfer counts what it added and removed, and a key that is taken is the database's error.
pub data Answer : Type 0 where
  done bad_request refused not_found integrity_error : Answer
  counted : ℕ → ℕ → Answer

abbrev pub is_mine : ℕ → Option Collection → Bool
is_mine user none = false
is_mine user (some c) = c.user_id == user

-- `get_owned`: whether it finds a row, and does not answer 404.
unfoldable pub get_owned : Db → ℕ → ℕ → Bool
unfolding find
get_owned db user id = is_mine user (find id db.collections)

abbrev pub is_live : ℕ → Option Card → Bool
is_live user none = false
is_live user (some g) = g.user_id == user && not (is_some g.deleted_at)

unfoldable pub owns_live : Db → ℕ → ℕ → Bool
unfolding find
owns_live db user id = is_live user (find id db.cards)

abbrev pub is_item : ℕ → ℕ → Item → Bool
is_item c g i = i.collection_id == c && i.graded_card_id == g

unfoldable pub has_item : ℕ → ℕ → List Item → Bool
has_item c g [] = false
has_item c g (i ∷ is_) = is_item c g i || has_item c g is_

unfoldable pub member : ℕ → List ℕ → Bool
member g [] = false
member g (x ∷ xs) = x == g || member g xs

-- Deletes the rows of a collection that hold one of the cards.
unfoldable pub drop_items : ℕ → List ℕ → List Item → List Item
unfolding member
drop_items c ids [] = []
drop_items c ids (i ∷ is_) =
    let rest = drop_items c ids is_ in
    if i.collection_id == c && member i.graded_card_id ids then rest else i ∷ rest

-- The foreign key of the items cascades.
unfoldable pub drop_collection : ℕ → List Item → List Item
drop_collection c [] = []
drop_collection c (i ∷ is_) =
    let rest = drop_collection c is_ in if i.collection_id == c then rest else i ∷ rest

unfoldable pub delete_row : ℕ → Db → Db
unfolding delete drop_collection
delete_row id db = record db {
  collections = delete id db.collections;
  items = drop_collection id db.items;
}
