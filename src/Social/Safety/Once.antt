-- ===== src/Social/Safety/Once.antt =====
-- A report is filed once (safety.py): what any sequence of calls keeps of a user's reports.
use loupe_backend.Prelude.{
  if_elim, ℕ, zero, suc, ◌≤◌, ◌≡◌, refl, sym, ap, subst, ◌∙◌, inl, inr, Bool, true, false, not,
  Option, none, some, List, [], ◌∷◌, arith, ◌==◌, if◌then◌else◌, ==_iff, Bool-cases,
}
use loupe_backend.Prelude.Text.{Text}
use loupe_backend.Social.Moderation.{Action, allow, review, block, member}
use loupe_backend.Social.Safety.{
  Target, post, comment, profile, store_review, collection, story, story_comment, Status, dismissed,
  removed, Case, Db, rank, same_target, insert_case, auto_case, enforce, act_on, is_reportable,
  report_reasons,
}
use loupe_backend.Social.Safety.Report.{
  author_of, ReportCreate, Reported, is_mine, has_mine, report_on, report_case, report_content,
}
use loupe_backend.Social.Safety.Resolve.{stamp, answers, stamp_cases, resolve_case, resolve}
use loupe_backend.Prelude.Tables.{Table, find}
use loupe_backend.Social.Safety.Cases.{
  Call, enforcing, reporting, resolving, step, run, remove_target-cases,
}

-- How many reports this user has filed about this target.
unfoldable pub mine : Target → ℕ → ℕ → Table Case → ℕ
unfolding is_mine
mine kind id who [] = 0
mine kind id who ((i, c) ∷ cs) =
    let rest = mine kind id who cs in if is_mine kind id who c then suc rest else rest

has_mine-mine :
    (kind : Target) (id who : ℕ) (cs : Table Case)
    → has_mine kind id who cs ≡ false
    → mine kind id who cs ≡ 0
unfolding mine has_mine
has_mine-mine kind id who [] absent = refl
has_mine-mine kind id who ((i, c) ∷ cs) absent =
    let rest = has_mine-mine kind id who cs in ground (arith, absent, rest)

mine-stamp_cases :
    (kind : Target) (id who : ℕ) (p : ℕ → Case → Bool) (s : Status) (admin now : ℕ)
    → (cs : Table Case) → mine kind id who (stamp_cases p s admin now cs) ≡ mine kind id who cs
unfolding mine stamp_cases is_mine stamp
mine-stamp_cases kind id who p s admin now [] = refl
mine-stamp_cases kind id who p s admin now ((i, c) ∷ cs) =
    ground (arith, mine-stamp_cases kind id who p s admin now cs)

abbrev pub Once : Table Case → Type 0
Once cs = (kind : Target) (id who : ℕ) → mine kind id who cs ≤ 1

abbrev of_rank : ℕ → Target
of_rank zero = post
of_rank (suc zero) = comment
of_rank (suc (suc zero)) = profile
of_rank (suc (suc (suc zero))) = store_review
of_rank (suc (suc (suc (suc zero)))) = collection
of_rank (suc (suc (suc (suc (suc zero))))) = story
of_rank _ = story_comment

abbrev KeepsOnce : Reported × Db → Type 0
KeepsOnce r = Once r.1.cases

of_rank-rank : (k : Target) → of_rank (rank k) ≡ k
of_rank-rank post = refl
of_rank-rank comment = refl
of_rank-rank profile = refl
of_rank-rank store_review = refl
of_rank-rank collection = refl
of_rank-rank story = refl
of_rank-rank story_comment = refl

same_target-eq : (k j : Target) → same_target k j ≡ true → k ≡ j
unfolding same_target
same_target-eq k j e =
    sym (of_rank-rank k) ∙ ap of_rank ((==_iff (rank k) (rank j)).0 e) ∙ of_rank-rank j

act_on-Once :
    (db : Db) (a : Action) (c : Case)
    → Once db.cases
    → c.reporter_id ≡ none
    → Once (act_on db a c).1.cases
unfolding insert_case mine is_mine
act_on-Once db allow c old quiet = old
act_on-Once db review c old quiet = λ kind id who. ground (arith, old kind id who, quiet)
act_on-Once db block c old quiet = λ kind id who. ground (arith, old kind id who, quiet)

report_case-Once :
    (db : Db) (who : ℕ) (p : ReportCreate) (author : ℕ)
    → Once db.cases
    → has_mine p.target_type p.target_id who db.cases ≡ false
    → Once (insert_case db (report_case db who p author)).cases
unfolding insert_case mine is_mine
report_case-Once db who p author old first kind id by =
    elim (Bool-cases (is_mine kind id by (report_case db who p author))) [
      | inl hit ↦
          (let k : p.target_type ≡ kind = same_target-eq p.target_type kind (ground (arith, hit)) in
            let i : p.target_id ≡ id = ground (arith, hit) in
            let w : who ≡ by = ground (arith, hit) in
            let zero_ : mine kind id by db.cases ≡ 0 =
              subst (λ z. mine z id by db.cases ≡ 0) k
                (subst (λ z. mine p.target_type z by db.cases ≡ 0) i
                  (subst (λ z. mine p.target_type p.target_id z db.cases ≡ 0) w
                    (has_mine-mine p.target_type p.target_id who db.cases first))) in
            ground (arith, hit, zero_))
      | inr miss ↦ ground (arith, old kind id by, miss)
    ]

resolve_case-Once :
    (db : Db) (admin case_id : ℕ) (action : Text) (now : ℕ) (o : Option Case)
    → Once db.cases
    → Once (resolve_case db admin case_id action now o).1.cases
resolve_case-Once db admin case_id action now none old kind id who = old kind id who
resolve_case-Once db admin case_id action now (some c) old kind id who = ground (
  arith,
  old kind id who,
  remove_target-cases db c.target_type c.target_id now,
  mine-stamp_cases kind id who (answers case_id c.target_type c.target_id) removed admin now
      db.cases,
  mine-stamp_cases kind id who (answers case_id c.target_type c.target_id) dismissed admin now
      db.cases,
)

report_on-Once :
    (db : Db) (who : ℕ) (p : ReportCreate) (o : Option ℕ)
    → Once db.cases
    → Once (report_on db who p o).1.cases
report_on-Once db who p none old = old
report_on-Once db who p (some author) old =
    if_elim KeepsOnce (author == who) _ _ (λ _. old)
      (λ _.
        if_elim KeepsOnce (has_mine p.target_type p.target_id who db.cases) _ _ (λ _. old)
          (report_case-Once db who p author old))

step-Once : (db : Db) (c : Call) → Once db.cases → Once (step db c).cases
unfolding enforce report_content resolve auto_case
step-Once db (enforcing actor k id v t shown now) old = act_on-Once db v.action _ old refl
step-Once db (reporting who p) old =
    if_elim KeepsOnce (not (is_reportable p.target_type)) _ _ (λ _. old)
      (λ _.
        if_elim KeepsOnce (not (member p.reason report_reasons)) _ _ (λ _. old)
          (λ _. report_on-Once db who p (author_of db p.target_type p.target_id) old))
step-Once db (resolving admin case_id action now) old =
    resolve_case-Once db admin case_id action now (find case_id db.cases) old

-- Nobody reports the same thing twice: on a table with at most one report of each user about each
-- target, at most one stands there after any sequence of screenings, reports and answers.
pub run-Once :
    (db : Db) (calls : List Call)
    → Once db.cases
    → (kind : Target) (id who : ℕ) → mine kind id who (run db calls).cases ≤ 1
unfolding run
run-Once db [] old = old
run-Once db (c ∷ cs) old = run-Once (step db c) cs (step-Once db c old)
