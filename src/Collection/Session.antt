-- ===== src/Collection/Session.antt =====
-- Any sequence of calls (collection_service.py).
use loupe_backend.Prelude.{ℕ, Bool, none, some, List, [], ◌∷◌, if◌then◌else◌, is_some}
use loupe_backend.Prelude.Tables.{find, change}
use loupe_backend.Collection.{Card, Db, CollectionCreate, CollectionUpdate}
use loupe_backend.Collection.Calls.{
  create, update, delete_owned, add_item, remove_item, bulk_add_items, bulk_remove_items,
  transfer_items, merge,
}

-- Any call, and what users do with their cards elsewhere: file one, and delete one.
pub data Event : Type 0 where
  creates : ℕ → ℕ → Bool → CollectionCreate → Event
  updates : ℕ → ℕ → Bool → CollectionUpdate → Event
  deletes : ℕ → ℕ → Event
  adds removes : ℕ → ℕ → ℕ → Event
  bulk_adds bulk_removes : ℕ → ℕ → List ℕ → Event
  transfers : ℕ → ℕ → ℕ → List ℕ → Event
  merges : ℕ → ℕ → ℕ → Event
  files : ℕ → ℕ → Event
  trashes : ℕ → ℕ → Event

unfoldable pub file_card : Db → ℕ → ℕ → Db
unfolding find
file_card db user g =
    if is_some (find g db.cards)
    then db
    else record db { cards = (g, record { user_id = user; deleted_at = none }) ∷ db.cards }

unfoldable pub trash : ℕ → Card → Card
trash now a = record a { deleted_at = some now }

unfoldable pub act : Db → Event → Db
unfolding create update delete_owned add_item remove_item bulk_add_items bulk_remove_items
    transfer_items merge file_card change trash
act db (creates user id passes p) = (create db user id passes p).1
act db (updates user id passes p) = (update db user id passes p).1
act db (deletes user id) = (delete_owned db user id).1
act db (adds user id g) = (add_item db user id g).1
act db (removes user id g) = (remove_item db user id g).1
act db (bulk_adds user id gs) = (bulk_add_items db user id gs).1
act db (bulk_removes user id gs) = (bulk_remove_items db user id gs).1
act db (transfers user target source gs) = (transfer_items db user target source gs).1
act db (merges user target source) = (merge db user target source).1
act db (files user g) = file_card db user g
act db (trashes g now) = record db { cards = change g (trash now) db.cards }

unfoldable pub run : Db → List Event → Db
unfolding act
run db [] = db
run db (e ∷ es) = run (act db e) es
