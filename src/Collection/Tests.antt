-- ===== src/Collection/Tests.antt =====
-- Collections on concrete data.
use loupe_backend.Prelude.{
  ℕ, ◌+◌, String, ◌≡◌, refl, ap, true, false, ◌&&◌, ◌||◌, not, none, some, List, [], ◌∷◌, ◌==◌,
  length,
}
use loupe_backend.Prelude.Text.{Text, codes}
use loupe_backend.Prelude.Tables.{find}
use loupe_backend.Collection.{
  Collection, Card, Db, CollectionCreate, done, not_found, counted, get_owned, owns_live, has_item,
  member, drop_items, drop_collection, delete_row,
}
use loupe_backend.Collection.Calls.{
  create, new_item, add_item, unique, to_add, insert_items, bulk_add_items, count_rows,
  bulk_remove_items, transfer_items, move_items, merge, shown, list_items,
}
use loupe_backend.Collection.Transfer.{transfer_items-has_item, transfer_items-counted}
use loupe_backend.Collection.Merge.{merge-has_item}
use loupe_backend.Collection.Session.{Event, creates, adds, bulk_adds, files, act, run, file_card}
use loupe_backend.Collection.Listed.{empty, run-list_items}
use loupe_backend.Collection.Unique.{no_repeats, no_repeats-run}

abbrev named : String → CollectionCreate
named s = record { name = codes s; description = none; color = none; is_public = false }

-- Users 7 and 8; collections 1 and 2 of user 7 and 3 of user 8; card 23 is of user 8.
abbrev day : List Event
day =
    creates 7 1 true (named "Binder")
    ∷ creates 7 2 true (named "Deck")
    ∷ creates 8 3 true (named "Other")
    ∷ files 7 21
    ∷ files 7 22
    ∷ files 8 23
    ∷ files 7 24
    ∷ adds 7 1 21
    ∷ adds 7 1 23
    ∷ bulk_adds 7 2 (21 ∷ 22 ∷ 22 ∷ 23 ∷ [])
    ∷ adds 8 3 23
    ∷ []

abbrev row : ℕ → Text → Collection
row user name = record {
  user_id = user;
  name = name;
  description = none;
  color = none;
  is_public = false;
}

abbrev card : ℕ → Card
card user = record { user_id = user; deleted_at = none }

abbrev evening : Db
evening = record {
  collections =
      (3, row 8 (codes "Other")) ∷ (2, row 7 (codes "Deck")) ∷ (1, row 7 (codes "Binder")) ∷ [];
  items = new_item 3 23 ∷ new_item 2 21 ∷ new_item 2 22 ∷ new_item 1 21 ∷ [];
  cards = (24, card 7) ∷ (23, card 8) ∷ (22, card 7) ∷ (21, card 7) ∷ [];
}

run-day : run empty day ≡ evening
unfolding run act create file_card add_item bulk_add_items get_owned owns_live has_item to_add
    unique insert_items member find
run-day = refl

merge-has_item_example :
    (merge evening 7 1 2).0 ≡ done
    × find 2 (merge evening 7 1 2).1.collections ≡ none
    × (merge evening 7 1 2).1.cards ≡ evening.cards
    × ((c g : ℕ)
        → has_item c g (merge evening 7 1 2).1.items
          ≡ (not (2 == c) && (has_item c g evening.items || 1 == c && has_item 2 g evening.items)))
unfolding get_owned find
merge-has_item_example = merge-has_item evening 7 1 2 refl refl refl

merge-items : (merge evening 7 1 2).1.items ≡ new_item 3 23 ∷ new_item 1 22 ∷ new_item 1 21 ∷ []
unfolding merge get_owned find delete_row move_items drop_collection has_item
merge-items = refl

-- Card 22 is in neither binder of this transfer: the source has only 21.
transfer_items-has_item_example :
    has_item 2 24 (transfer_items evening 7 2 1 (21 ∷ 24 ∷ [])).1.items ≡ (
      (has_item 2 24 evening.items
        || get_owned evening 7 2 && 2 == 2 && member 24 (21 ∷ 24 ∷ []) && owns_live evening 7 24)
      && not (get_owned evening 7 2 && get_owned evening 7 1 && 1 == 2 && member 24 (21 ∷ 24 ∷ [])))
transfer_items-has_item_example = transfer_items-has_item evening 7 2 1 2 24 (21 ∷ 24 ∷ []) refl

transfer_items_run : transfer_items evening 7 2 1 (21 ∷ 24 ∷ []) ≡ (
  counted 1 1,
  record evening { items = new_item 2 24 ∷ new_item 3 23 ∷ new_item 2 21 ∷ new_item 2 22 ∷ [] },
)
unfolding transfer_items bulk_add_items bulk_remove_items get_owned owns_live find to_add unique
    insert_items member has_item drop_items count_rows
transfer_items_run = refl

-- From a collection of another user: not found, but the card has been added.
transfer_foreign :
    transfer_items evening 7 2 3 (24 ∷ [])
    ≡ (not_found, record evening { items = new_item 2 24 ∷ evening.items })
unfolding transfer_items bulk_add_items bulk_remove_items get_owned owns_live find to_add unique
    insert_items member has_item
transfer_foreign = refl

transfer_items-counted_example :
    length (transfer_items evening 7 2 1 (21 ∷ 24 ∷ [])).1.items + 1 ≡ length evening.items + 1
transfer_items-counted_example =
    transfer_items-counted evening 7 2 1 1 1 (21 ∷ 24 ∷ []) (ap (λ r. r.0) transfer_items_run)

no_repeats-run_example : no_repeats (run empty day).items ≡ true
unfolding no_repeats
no_repeats-run_example = no_repeats-run empty day refl

list-day : list_items (run empty day) 7 2 ≡ some (21 ∷ 22 ∷ [])
unfolding list_items shown get_owned find
list-day = ap (λ db. list_items db 7 2) run-day

run-list_items_example :
    member 23 (21 ∷ 22 ∷ [])
    ≡ (has_item 2 23 (run empty day).items && owns_live (run empty day) 7 23)
run-list_items_example = run-list_items day 7 2 23 (21 ∷ 22 ∷ []) list-day
