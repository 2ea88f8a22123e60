-- ===== src/Social/Safety/Cases.antt =====
-- What any sequence of screenings, reports and answers keeps of the cases (safety.py).
use loupe_backend.Prelude.{
  if_elim, ℕ, ◌+◌, ◌≡◌, refl, ap, ◌∙◌, Bool, true, false, ◌&&◌, not, Option, none, some, List, [],
  ◌∷◌, arith, ◌==◌, if◌then◌else◌, is_some, ==_iff,
}
use loupe_backend.Prelude.Text.{Text, codes, text_eq}
use loupe_backend.Social.Moderation.{Action, allow, review, block, Verdict, member}
use loupe_backend.Social.Safety.{
  Target, post, comment, profile, store_review, collection, story, story_comment, Status, open_,
  dismissed, removed, Case, Db, insert_case, auto_case, enforce, act_on, is_reportable,
  report_reasons,
}
use loupe_backend.Social.Safety.Report.{
  author_of, ReportCreate, Reported, is_by, has_mine, report_on, report_case, report_content,
}
use loupe_backend.Social.Safety.Resolve.{
  is_open, open_tab, dismissed_tab, removed_tab, blocked_tab, in_tab, remove_target, stamp, answers,
  stamp_cases, Resolved, resolve_case, resolve,
}
use loupe_backend.Prelude.Tables.{Table, find}

unfoldable pub all_cases : (Case → Bool) → Table Case → Bool
all_cases p [] = true
all_cases p ((i, c) ∷ cs) = p c && all_cases p cs

abbrev one_if : Bool → ℕ
one_if b = if b then 1 else 0

-- How many tabs of the queue show the case.
unfoldable pub tabs : Case → ℕ
unfolding in_tab
tabs c =
    one_if (in_tab open_tab c)
    + one_if (in_tab dismissed_tab c)
    + one_if (in_tab removed_tab c)
    + one_if (in_tab blocked_tab c)

-- A case that stands in one tab and was not filed by the author of the content.
unfoldable pub sound : Case → Bool
unfolding tabs
sound c = tabs c == 1 && not (is_by c.author_id c.reporter_id)

-- The calls that change the table of cases.
pub data Call : Type 0 where
  enforcing : ℕ → Target → ℕ → Verdict → Option Text → Option Text → ℕ → Call
  reporting : ℕ → ReportCreate → Call
  resolving : ℕ → ℕ → Text → ℕ → Call

abbrev pub step : Db → Call → Db
step db (enforcing actor surface id v text shown now) =
    (enforce db actor surface id v text shown now).1
step db (reporting who p) = (report_content db who p).1
step db (resolving admin case_id action now) = (resolve db admin case_id action now).1

unfoldable pub run : Db → List Call → Db
run db [] = db
run db (c ∷ cs) = run (step db c) cs

pub remove_target-cases :
    (db : Db) (k : Target) (id now : ℕ) → (remove_target db k id now).cases ≡ db.cases
unfolding remove_target
remove_target-cases db post id now = refl
remove_target-cases db comment id now = refl
remove_target-cases db profile id now = refl
remove_target-cases db story id now = refl
remove_target-cases db story_comment id now = refl
remove_target-cases db store_review id now = refl
remove_target-cases db collection id now = refl

stamp-sound :
    (s : Status) (admin now : ℕ) (c : Case)
    → is_open s ≡ false
    → sound c ≡ true
    → sound (stamp s admin now c) ≡ true
unfolding sound tabs in_tab stamp
stamp-sound open_ admin now c closed old = ground (arith, closed)
stamp-sound dismissed admin now c closed old = ground (arith, old)
stamp-sound removed admin now c closed old = ground (arith, old)

stamp_cases-sound :
    (p : ℕ → Case → Bool) (s : Status) (admin now : ℕ) (cs : Table Case)
    → is_open s ≡ false
    → all_cases sound cs ≡ true
    → all_cases sound (stamp_cases p s admin now cs) ≡ true
unfolding all_cases stamp_cases
stamp_cases-sound p s admin now [] closed old = refl
stamp_cases-sound p s admin now ((i, c) ∷ cs) closed old =
    let rest = stamp_cases-sound p s admin now cs closed in
    let this = stamp-sound s admin now c closed in ground (arith, old, rest, this)

auto_case-sound :
    (k : Target) (id who : ℕ) (v : Verdict) (t : Option Text) (now : ℕ)
    → sound (auto_case k id who v t now) ≡ true
unfolding sound tabs in_tab auto_case
auto_case-sound k id who v t now = ground arith

abbrev KeepsSound : {A : Type 0} → A × Db → Type 0
KeepsSound r = all_cases sound r.1.cases ≡ true

-- A new case that is sound keeps the table sound.
insert_case-sound :
    (db : Db) (c : Case)
    → all_cases sound db.cases ≡ true
    → sound c ≡ true
    → all_cases sound (insert_case db c).cases ≡ true
unfolding insert_case all_cases
insert_case-sound db c old new = ground (arith, old, new)

act_on-sound :
    (db : Db) (a : Action) (c : Case)
    → all_cases sound db.cases ≡ true
    → sound c ≡ true
    → all_cases sound (act_on db a c).1.cases ≡ true
act_on-sound db allow c old new = old
act_on-sound db review c old new = insert_case-sound db c old new
act_on-sound db block c old new = insert_case-sound db c old new

report_case-sound :
    (db : Db) (who : ℕ) (p : ReportCreate) (author : ℕ)
    → (author == who) ≡ false
    → sound (report_case db who p author) ≡ true
unfolding sound tabs in_tab
report_case-sound db who p author other =
    ground (arith, other, ==_iff author who, ==_iff who author)

report_on-sound :
    (db : Db) (who : ℕ) (p : ReportCreate) (o : Option ℕ)
    → all_cases sound db.cases ≡ true
    → all_cases sound (report_on db who p o).1.cases ≡ true
report_on-sound db who p none old = old
report_on-sound db who p (some author) old =
    if_elim (KeepsSound {A = Reported}) (author == who) _ _ (λ own. old)
      (λ other.
        if_elim (KeepsSound {A = Reported}) (has_mine p.target_type p.target_id who db.cases) _ _
          (λ again. old)
          (λ first. insert_case-sound db _ old (report_case-sound db who p author other)))

resolve_case-sound :
    (db : Db) (admin case_id : ℕ) (action : Text) (now : ℕ) (o : Option Case)
    → all_cases sound db.cases ≡ true
    → all_cases sound (resolve_case db admin case_id action now o).1.cases ≡ true
resolve_case-sound db admin case_id action now none old = old
resolve_case-sound db admin case_id action now (some c) old =
    let closing : (s : Status) (cs : Table Case)
        → is_open s ≡ false
        → cs ≡ db.cases
        → all_cases sound (stamp_cases (answers case_id c.target_type c.target_id) s admin now cs)
          ≡ true =
      λ s cs closed same.
        stamp_cases-sound _ s admin now cs closed (ap (all_cases sound) same ∙ old) in
    if_elim (KeepsSound {A = Resolved}) (text_eq action (codes "remove")) _ _
      (λ _. closing removed _ refl (remove_target-cases db c.target_type c.target_id now))
      (λ _.
        if_elim (KeepsSound {A = Resolved}) (text_eq action (codes "dismiss")) _ _
          (λ _. closing dismissed _ refl refl) (λ _. old))

step-sound :
    (db : Db) (c : Call)
    → all_cases sound db.cases ≡ true
    → all_cases sound (step db c).cases ≡ true
unfolding enforce report_content resolve
step-sound db (enforcing actor k id v t shown now) old =
    act_on-sound db v.action _ old
      (auto_case-sound k id actor v (if is_some shown then shown else t) now)
step-sound db (reporting who p) old =
    if_elim (KeepsSound {A = Reported}) (not (is_reportable p.target_type)) _ _ (λ _. old)
      (λ _.
        if_elim (KeepsSound {A = Reported}) (not (member p.reason report_reasons)) _ _ (λ _. old)
          (λ _. report_on-sound db who p (author_of db p.target_type p.target_id) old))
step-sound db (resolving admin case_id action now) old =
    resolve_case-sound db admin case_id action now (find case_id db.cases) old

-- Every case stands in exactly one tab of the queue and nobody's report is about their own content:
-- whatever sequence of screenings, reports and answers is run on a table whose cases are so, they
-- all are so after it.
pub run-sound :
    (db : Db) (calls : List Call)
    → all_cases sound db.cases ≡ true
    → all_cases sound (run db calls).cases ≡ true
unfolding run
run-sound db [] old = old
run-sound db (c ∷ cs) old = run-sound (step db c) cs (step-sound db c old)
