-- ===== src/Social/Safety/Answers.antt =====
-- What an answer does to the cases (safety.py).
use loupe_backend.Prelude.{
  ℕ, suc, ◌≡◌, refl, ap, ◌∙◌, inl, inr, Bool, true, false, ◌&&◌, ◌||◌, none, some, [], ◌∷◌, arith,
  ◌==◌, if◌then◌else◌, ==_iff, Bool-cases,
}
use loupe_backend.Prelude.Text.{Text, codes, text_eq}
use loupe_backend.Social.Safety.{Target, Status, dismissed, removed, Case, Db, same_target}
use loupe_backend.Social.Safety.Resolve.{
  is_open, stamp, answers, stamp_cases, resolve_case, resolve,
}
use loupe_backend.Prelude.Tables.{Table, find}
use loupe_backend.Social.Safety.Cases.{remove_target-cases}

-- How many open cases there are about this target.
unfoldable pub open_about : Target → ℕ → Table Case → ℕ
unfolding same_target
open_about k id [] = 0
open_about k id ((i, c) ∷ cs) =
    let rest = open_about k id cs in
    if same_target c.target_type k && c.target_id == id && is_open c.status then suc rest else rest

abbrev pub is_answer : Text → Bool
is_answer action = text_eq action (codes "remove") || text_eq action (codes "dismiss")

abbrev pub status_of : Text → Status
status_of action = if text_eq action (codes "remove") then removed else dismissed

resolve_case-cases :
    (db : Db) (admin case_id now : ℕ) (action : Text) (c : Case)
    → is_answer action ≡ true
    → (resolve_case db admin case_id action now (some c)).1.cases
      ≡ stamp_cases
          (answers case_id c.target_type c.target_id)
          (status_of action)
          admin
          now
          db.cases
resolve_case-cases db admin case_id now action c known =
    ground (arith, known, remove_target-cases db c.target_type c.target_id now)

resolve-cases :
    (db : Db) (admin case_id now : ℕ) (action : Text) (c : Case)
    → find case_id db.cases ≡ some c
    → is_answer action ≡ true
    → (resolve db admin case_id action now).1.cases
      ≡ stamp_cases
          (answers case_id c.target_type c.target_id)
          (status_of action)
          admin
          now
          db.cases
unfolding resolve
resolve-cases db admin case_id now action c e known =
    ap (λ o. (resolve_case db admin case_id action now o).1.cases) e
    ∙ resolve_case-cases db admin case_id now action c known

status_of-closed : (action : Text) → is_open (status_of action) ≡ false
status_of-closed action = ground arith

open_about-stamp_cases :
    (case_id : ℕ) (k : Target) (id : ℕ) (s : Status) (admin now : ℕ) (cs : Table Case)
    → is_open s ≡ false
    → open_about k id (stamp_cases (answers case_id k id) s admin now cs) ≡ 0
unfolding open_about stamp_cases answers stamp
open_about-stamp_cases case_id k id s admin now [] closed = refl
open_about-stamp_cases case_id k id s admin now ((i, c) ∷ cs) closed =
    ground (arith, closed, open_about-stamp_cases case_id k id s admin now cs closed)

-- A target's cases are answered together: after a known answer to a case no open case about its
-- target is left.
pub open_about-resolve :
    (db : Db) (admin case_id now : ℕ) (action : Text) (c : Case)
    → find case_id db.cases ≡ some c
    → is_answer action ≡ true
    → open_about c.target_type c.target_id (resolve db admin case_id action now).1.cases ≡ 0
open_about-resolve db admin case_id now action c e known =
    ap (open_about c.target_type c.target_id) (resolve-cases db admin case_id now action c e known)
    ∙ open_about-stamp_cases case_id c.target_type c.target_id (status_of action) admin now db.cases
        (status_of-closed action)

find-stamp_cases :
    (p : ℕ → Case → Bool) (s : Status) (admin now j : ℕ) (cs : Table Case)
    → find j (stamp_cases p s admin now cs)
      ≡ elim (find j cs) [ none ↦ none | some d ↦ some (if p j d then stamp s admin now d else d) ]
unfolding find stamp_cases
find-stamp_cases p s admin now j [] = refl
find-stamp_cases p s admin now j ((i, d) ∷ cs) = elim (Bool-cases (i == j)) [
  | inl same ↦ ground (arith, same, ap (λ k. p k d) ((==_iff i j).0 same))
  | inr other ↦ ground (arith, other, find-stamp_cases p s admin now j cs)
]

-- An answer stamps the case and the open cases about its target with the same status, moderator and
-- time, and leaves every other case as it was.
pub find-resolve :
    (db : Db) (admin case_id now : ℕ) (action : Text) (c : Case)
    → find case_id db.cases ≡ some c
    → is_answer action ≡ true
    → (j : ℕ)
    → find j (resolve db admin case_id action now).1.cases ≡ elim (find j db.cases) [
      | none ↦ none
      | some d ↦ some (
          if answers case_id c.target_type c.target_id j d
          then stamp (status_of action) admin now d
          else d)
    ]
find-resolve db admin case_id now action c e known j =
    ap (find j) (resolve-cases db admin case_id now action c e known)
    ∙ find-stamp_cases _ (status_of action) admin now j db.cases
