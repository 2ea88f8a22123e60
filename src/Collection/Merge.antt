-- ===== src/Collection/Merge.antt =====
-- What a merge of two collections does (collection_service.py).
use loupe_backend.Prelude.{
  ℕ, ◌≡◌, refl, ap, ◌∙◌, inl, inr, true, false, ◌&&◌, ◌||◌, not, none, List, [], ◌∷◌, arith, ◌==◌,
  if◌then◌else◌, ==_iff, Bool-cases,
}
use loupe_backend.Prelude.Tables.{find, find-delete}
use loupe_backend.Collection.{Item, Db, done, get_owned, has_item, delete_row}
use loupe_backend.Collection.Calls.{move_items, merge}
use loupe_backend.Collection.Rows.{has_item-drop_collection}

-- An item of another collection stays.
pub move_items-kept :
    (t s c g : ℕ) (before is_ : List Item)
    → (s == c) ≡ false
    → (has_item c g is_ && not (has_item c g (move_items t s before is_))) ≡ false
unfolding has_item move_items
move_items-kept t s c g before [] other = refl
move_items-kept t s c g before (i ∷ is_) other = ground (
  arith,
  other,
  move_items-kept t s c g before is_ other,
  ==_iff i.collection_id s,
  ==_iff i.collection_id c,
  ==_iff s c,
)

-- An item that is there after the loop was there, or was in the source and not yet in the target.
pub move_items-was :
    (t s c g : ℕ) (before is_ : List Item)
    → (has_item c g (move_items t s before is_)
        && not (has_item c g is_ || t == c && has_item s g is_ && not (has_item t g before)))
      ≡ false
unfolding has_item move_items
move_items-was t s c g before [] = refl
move_items-was t s c g before (i ∷ is_) = ground (
  arith,
  move_items-was t s c g before is_,
  ==_iff i.collection_id s,
  ==_iff i.collection_id c,
  ==_iff t c,
  ==_iff i.graded_card_id g,
)

-- A card of the source is in the target, if it was not there before.
move_items-moved :
    (t s g : ℕ) (before is_ : List Item)
    → (has_item s g is_
        && not (has_item t g before)
        && not (has_item t g (move_items t s before is_)))
      ≡ false
unfolding has_item move_items
move_items-moved t s g before [] = refl
move_items-moved t s g before (i ∷ is_) = ground (
  arith,
  move_items-moved t s g before is_,
  ==_iff i.collection_id s,
  ==_iff t t,
  ==_iff i.graded_card_id g,
)

unfoldable pub merged : Db → ℕ → ℕ → Db
unfolding delete_row
merged db target source =
    delete_row source (record db { items = move_items target source db.items db.items })

pub merge-merged :
    (db : Db) (user target source : ℕ)
    → (target == source) ≡ false
    → get_owned db user target ≡ true
    → get_owned db user source ≡ true
    → merge db user target source ≡ (done, merged db target source)
unfolding merge merged
merge-merged db user target source other mine theirs = ground (arith, other, mine, theirs)

pub has_item-merged :
    (db : Db) (target source c g : ℕ)
    → (target == source) ≡ false
    → has_item c g (merged db target source).items
      ≡ (not (source == c) && (has_item c g db.items || target == c && has_item source g db.items))
unfolding merged delete_row
has_item-merged db target source c g other = ground (
  arith,
  other,
  has_item-drop_collection c g source (move_items target source db.items db.items),
  has_item-kept,
  move_items-was target source c g db.items db.items,
  move_items-moved target source g db.items db.items,
  ==_iff target c,
)
  where
    has_item-kept :
        (has_item c g db.items
          && not (has_item c g (move_items target source db.items db.items))
          && not (source == c))
        ≡ false
    has_item-kept = elim (Bool-cases (source == c)) [
      | inl same ↦ ground (arith, same)
      | inr apart ↦ ground (arith, move_items-kept target source c g db.items db.items apart)
    ]

-- A merge of two collections of the user succeeds: the target then holds what it held and what the source held, the
-- source is gone with all its items, every other collection holds what it held, and no card is touched.
pub merge-has_item :
    (db : Db) (user target source : ℕ)
    → (target == source) ≡ false
    → get_owned db user target ≡ true
    → get_owned db user source ≡ true
    → (merge db user target source).0 ≡ done
      × find source (merge db user target source).1.collections ≡ none
      × (merge db user target source).1.cards ≡ db.cards
      × ((c g : ℕ)
          → has_item c g (merge db user target source).1.items ≡ (
              not (source == c)
              && (has_item c g db.items || target == c && has_item source g db.items)))
unfolding merged delete_row
merge-has_item db user target source other mine theirs =
    let e = merge-merged db user target source other mine theirs in
    (
      ap (λ r. r.0) e,
      ap (λ r. find source r.1.collections) e
          ∙ find-delete source source db.collections
          ∙ ap (λ b. if b then none else find source db.collections)
              ((==_iff source source).1 refl),
      ap (λ r. r.1.cards) e,
      λ c g. ap (λ r. has_item c g r.1.items) e ∙ has_item-merged db target source c g other,
    )
