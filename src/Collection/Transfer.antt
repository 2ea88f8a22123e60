-- ===== src/Collection/Transfer.antt =====
-- What a transfer of cards does (collection_service.py).
use loupe_backend.Prelude.{
  ℕ, ◌+◌, ◌≡◌, refl, false, ◌&&◌, ◌||◌, not, List, [], ◌∷◌, arith, ◌==◌, ==_iff, length,
}
use loupe_backend.Collection.{Item, Db, counted, get_owned, owns_live, has_item, member, drop_items}
use loupe_backend.Collection.Calls.{
  unique, to_add, insert_items, bulk_add_items, count_rows, bulk_remove_items, transfer_items,
}
use loupe_backend.Collection.Rows.{
  has_item-drop_items, has_item-insert_items, member-to_add, member-unique,
}

pub drop_unique :
    (c g d : ℕ) (ids : List ℕ) (is_ : List Item)
    → has_item c g (drop_items d (unique [] ids) is_)
      ≡ (has_item c g is_ && not (d == c && member g ids))
unfolding member
drop_unique c g d ids is_ =
    ground (arith, has_item-drop_items c g d (unique [] ids) is_, member-unique g [] ids)

pub insert_new :
    (db : Db) (user c g d : ℕ) (ids : List ℕ)
    → has_item c g (insert_items d (to_add db user d (unique [] ids)) db.items)
      ≡ (has_item c g db.items || d == c && member g ids && owns_live db user g)
unfolding member
insert_new db user c g d ids = ground (
  arith,
  has_item-insert_items c g d (to_add db user d (unique [] ids)) db.items,
  member-to_add db user d g (unique [] ids),
  member-unique g [] ids,
  ==_iff d c,
)

-- What a transfer between two collections changes, on every branch: the listed cards that are the user's own and
-- live are in the target, if it is the user's, whether or not they were in the source; the listed
-- cards leave the source, if both are the user's; every other item stays as it was.
pub transfer_items-has_item :
    (db : Db) (user target source c g : ℕ) (ids : List ℕ)
    → (target == source) ≡ false
    → has_item c g (transfer_items db user target source ids).1.items ≡ (
        (has_item c g db.items
          || get_owned db user target && target == c && member g ids && owns_live db user g)
        && not
            (get_owned db user target && get_owned db user source && source == c && member g ids))
unfolding transfer_items bulk_add_items bulk_remove_items get_owned
transfer_items-has_item db user target source c g ids other = ground (
  arith,
  other,
  insert_new db user c g target ids,
  drop_unique c g source ids (insert_items target (to_add db user target (unique [] ids)) db.items),
)

length-drop_items :
    (d : ℕ) (ids : List ℕ) (is_ : List Item)
    → length (drop_items d ids is_) + count_rows d ids is_ ≡ length is_
unfolding drop_items count_rows
length-drop_items d ids [] = refl
length-drop_items d ids (i ∷ is_) = ground (arith, length-drop_items d ids is_)

length-insert_items :
    (d : ℕ) (gs : List ℕ) (is_ : List Item)
    → length (insert_items d gs is_) ≡ length gs + length is_
unfolding insert_items
length-insert_items d [] is_ = ground arith
length-insert_items d (g ∷ gs) is_ = ground (arith, length-insert_items d gs is_)

-- The numbers that a transfer answers with are those of the rows that it wrote: the items after it
-- and what it says it removed are as many as the items before it and what it says it added.
pub transfer_items-counted :
    (db : Db) (user target source added gone : ℕ) (ids : List ℕ)
    → (transfer_items db user target source ids).0 ≡ counted added gone
    → length (transfer_items db user target source ids).1.items + gone ≡ length db.items + added
unfolding transfer_items bulk_add_items bulk_remove_items get_owned
transfer_items-counted db user target source added gone ids e = ground (
  arith,
  e,
  length-insert_items target (to_add db user target (unique [] ids)) db.items,
  length-drop_items source (unique [] ids)
      (insert_items target (to_add db user target (unique [] ids)) db.items),
)
