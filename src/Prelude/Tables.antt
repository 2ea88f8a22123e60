-- ===== src/Prelude/Tables.antt =====
-- Tables whose rows have a numeric primary key.
use Prim.Native.Nat.{ℕ}
use mathlib.Core.Path.{◌≡◌, refl}
use mathlib.Core.Option.{Option, none, some}
use mathlib.Core.List.{List, [], ◌∷◌}
use native.Mathlib.Omega.{arith}
use loupe_backend.Prelude.Tests.{◌==◌, if◌then◌else◌, ==_iff}

abbrev pub Table : Type 0 → Type 0
Table A = List (ℕ × A)

module _ {A : Type 0} where
  unfoldable pub find : ℕ → Table A → Option A
  find id [] = none
  find id ((i, a) ∷ t) = if i == id then some a else find id t

  -- An update of the row with this key.
  unfoldable pub change : ℕ → (A → A) → Table A → Table A
  change id f [] = []
  change id f ((i, a) ∷ t) =
      let rest = change id f t in if i == id then (i, f a) ∷ rest else (i, a) ∷ rest

  unfoldable pub delete : ℕ → Table A → Table A
  delete id [] = []
  delete id ((i, a) ∷ t) = let rest = delete id t in if i == id then rest else (i, a) ∷ rest

  pub find-change :
      (id j : ℕ) (f : A → A) (t : Table A)
      → find j (change id f t)
        ≡ elim (find j t) [ none ↦ none | some a ↦ some (if j == id then f a else a) ]
  unfolding find change
  find-change id j f [] = refl
  find-change id j f ((i, a) ∷ t) =
      ground (arith, find-change id j f t, ==_iff i j, ==_iff i id, ==_iff j id)

  pub find-delete :
      (id j : ℕ) (t : Table A) → find j (delete id t) ≡ (if j == id then none else find j t)
  unfolding find delete
  find-delete id j [] = ground arith
  find-delete id j ((i, a) ∷ t) =
      ground (arith, find-delete id j t, ==_iff i j, ==_iff i id, ==_iff j id)
