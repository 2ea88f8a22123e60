-- ===== src/Collection/Rows.antt =====
-- Which items are there after the statements of collection_service.py.
use loupe_backend.Prelude.{ℕ, ◌≡◌, refl, ◌&&◌, ◌||◌, not, List, [], ◌∷◌, arith, ◌==◌, ==_iff}
use loupe_backend.Collection.{Item, Db, owns_live, has_item, member, drop_items, drop_collection}
use loupe_backend.Collection.Calls.{unique, to_add, insert_items}

pub has_item-drop_items :
    (c g d : ℕ) (ids : List ℕ) (is_ : List Item)
    → has_item c g (drop_items d ids is_) ≡ (has_item c g is_ && not (d == c && member g ids))
unfolding has_item drop_items
has_item-drop_items c g d ids [] = refl
has_item-drop_items c g d ids (i ∷ is_) = ground (
  arith,
  has_item-drop_items c g d ids is_,
  ==_iff i.collection_id c,
  ==_iff i.collection_id d,
  ==_iff d c,
  ==_iff i.graded_card_id g,
)

pub has_item-drop_collection :
    (c g d : ℕ) (is_ : List Item)
    → has_item c g (drop_collection d is_) ≡ (has_item c g is_ && not (d == c))
unfolding has_item drop_collection
has_item-drop_collection c g d [] = refl
has_item-drop_collection c g d (i ∷ is_) = ground (
  arith,
  has_item-drop_collection c g d is_,
  ==_iff i.collection_id c,
  ==_iff i.collection_id d,
  ==_iff d c,
)

pub has_item-insert_items :
    (c g d : ℕ) (gs : List ℕ) (is_ : List Item)
    → has_item c g (insert_items d gs is_) ≡ (has_item c g is_ || d == c && member g gs)
unfolding has_item insert_items member
has_item-insert_items c g d [] is_ = ground arith
has_item-insert_items c g d (x ∷ xs) is_ = ground (arith, has_item-insert_items c g d xs is_)

pub member-to_add :
    (db : Db) (user id g : ℕ) (gs : List ℕ)
    → member g (to_add db user id gs)
      ≡ (member g gs && owns_live db user g && not (has_item id g db.items))
unfolding member to_add
member-to_add db user id g [] = refl
member-to_add db user id g (x ∷ xs) = ground (arith, member-to_add db user id g xs, ==_iff x g)

pub member-unique :
    (g : ℕ) (seen xs : List ℕ) → member g (unique seen xs) ≡ (member g xs && not (member g seen))
unfolding member unique
member-unique g seen [] = refl
member-unique g seen (x ∷ xs) = ground (arith, member-unique g (x ∷ seen) xs, ==_iff x g)
