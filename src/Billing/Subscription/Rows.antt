-- ===== src/Billing/Subscription/Rows.antt =====
-- Lookups in the users' table after a row is written back (billing_service.py).
use loupe_backend.Prelude.{
  ℕ, ◌+◌, ◌<◌, String, ◌≡◌, refl, subst, inl, inr, Bool, true, none, some, List, [], ◌∷◌, arith,
  ◌==◌, if◌then◌else◌, Bool-cases, All,
}
use loupe_backend.Billing.Subscription.{User, has_customer, count, find_customer, find_id, save}

abbrev pub bit : Bool → ℕ
bit b = if b then 1 else 0

pub found_customer :
    (c : String) (us : List User) (u : User)
    → find_customer c us ≡ some u
    → (has_customer c u ≡ true) × (0 < count c us)
unfolding find_customer count
found_customer c [] u h = cc
found_customer c (v ∷ us) u h = ground (arith, found_customer c us u)

pub missing_customer : (c : String) (us : List User) → find_customer c us ≡ none → count c us ≡ 0
unfolding find_customer count
missing_customer c [] h = refl
missing_customer c (v ∷ us) h = ground (arith, missing_customer c us)

-- Ids are the table's primary key.
abbrev pub UniqueIds : List User → Type 0
UniqueIds [] = Unit
UniqueIds (u ∷ us) = (find_id u.id us ≡ none) × UniqueIds us

pub found_id : (i : ℕ) (us : List User) (u : User) → find_id i us ≡ some u → u.id ≡ i
unfolding find_id
found_id i [] u h = cc
found_id i (v ∷ us) u h = ground (arith, found_id i us u)

pub find_customer-find_id :
    (c : String) (us : List User) (u : User)
    → UniqueIds us
    → find_customer c us ≡ some u
    → find_id u.id us ≡ some u
unfolding find_customer find_id
find_customer-find_id c [] u q h = cc
find_customer-find_id c (v ∷ us) u q h = ground (arith, find_customer-find_id c us u q.1, q.0)

pub find_id-save :
    (i : ℕ) (u v : User) (us : List User)
    → find_id v.id us ≡ some u
    → find_id i (save v us) ≡ (if v.id == i then some v else find_id i us)
unfolding find_id save
find_id-save i u v [] h = cc
find_id-save i u v (w ∷ us) h = ground (arith, find_id-save i u v us)

pub UniqueIds-save :
    (u v : User) (us : List User) → find_id v.id us ≡ some u → UniqueIds us → UniqueIds (save v us)
unfolding find_id save
UniqueIds-save u v [] h q = tt
UniqueIds-save u v (w ∷ us) h q =
    ground (arith, UniqueIds-save u v us, find_id-save w.id u v us, q.0, q.1)

pub count-save :
    (c : String) (u v : User) (us : List User)
    → find_id v.id us ≡ some u
    → count c (save v us) + bit (has_customer c u) ≡ count c us + bit (has_customer c v)
unfolding count find_id save
count-save c u v [] h = cc
count-save c u v (w ∷ us) h = ground (arith, count-save c u v us)

pub All-save : (P : User → Type 0) (v : User) (us : List User) → All P us → P v → All P (save v us)
unfolding save
All-save P v [] a p = tt
All-save P v (w ∷ us) a p = elim (Bool-cases (w.id == v.id)) [
  | inl e ↦ rw e (p, a.1)
  | inr e ↦ rw e (a.0, All-save P v us a.1 p)
]

pub find_id-All :
    (P : User → Type 0) (i : ℕ) (us : List User) (u : User) → All P us → find_id i us ≡ some u → P u
unfolding find_id
find_id-All P i [] u a h = cc
find_id-All P i (v ∷ us) u a h = elim (Bool-cases (v.id == i)) [
  | inl e ↦ (let same : v ≡ u = ground (arith, e) in subst P same a.0)
  | inr e ↦ find_id-All P i us u a.1 (ground (arith, e))
]

pub save-save : (v w : User) (us : List User) → w.id ≡ v.id → save v (save w us) ≡ save v us
unfolding save
save-save v w [] e = refl
save-save v w (x ∷ us) e = ground (arith, save-save v w us)
