-- ===== src/Scan/Done.antt =====
-- That a complete job stays complete, however the runs overlap (scan_processor.py, scan_service.py).
use loupe_backend.Prelude.{
  if_elim, ℕ, ◌<◌, ◌≡◌, refl, ap, ◌∙◌, inl, inr, Bool, true, false, Option, none, some, List, [],
  ◌∷◌, ◌++◌, arith, ◌==◌, if◌then◌else◌, ==_iff, Bool-cases,
}
use loupe_backend.Prelude.Text.{Text, codes}
use loupe_backend.Prelude.Tables.{Table, find, change, find-change, find-delete}
use loupe_backend.Scan.{
  queued, uploading, processing, complete, failed, Key, Job, Graded, JobCreate, is_owner, owned,
  get_for_user, create_job, awaits_upload, begin_processing, mark_found, mark_complete,
  delete_found, delete_job,
}
use loupe_backend.Scan.Worker.{
  Begun, is_running, start, fail_with, complete_at, begin_images, begin_found, begin_process,
  store_row, store, fail_running, fail,
}
use loupe_backend.Scan.Settled.{find-change_found}
use loupe_backend.Scan.Steps.{
  Run, World, stored, Step, creates, marks, deletes, begins, looks, stores, crashes, Reach, here,
  next,
}

-- A job that is complete, or gone.
abbrev pub is_done : Option Job → Bool
is_done none = true
is_done (some j) = elim j.status [
  | queued ↦ false
  | uploading ↦ false
  | processing ↦ false
  | complete ↦ true
  | failed ↦ false
]

-- The same change of every row under a key keeps a job done, if it keeps each done job.
is_done-change :
    (id i : ℕ) (f : Job → Job) (jobs : Table Job)
    → ((j : Job) → is_done (some j) ≡ true → is_done (some (f j)) ≡ true)
    → is_done (find id jobs) ≡ true
    → is_done (find id (change i f jobs)) ≡ true
is_done-change id i f jobs keeps done =
    ap is_done (find-change i id f jobs) ∙ kept (find id jobs) done
  where
    kept :
        (o : Option Job)
        → is_done o ≡ true
        → is_done (elim o [ none ↦ none | some a ↦ some (if id == i then f a else a) ]) ≡ true
    kept none d = refl
    kept (some a) d = if_elim (λ x. is_done (some x) ≡ true) (id == i) _ _ (λ _. keeps a d) (λ _. d)

-- A change of the rows under the key of one that is not done.
is_done-change_live :
    (id i : ℕ) (f : Job → Job) (jobs : Table Job) (j : Job)
    → find i jobs ≡ some j
    → is_done (some j) ≡ false
    → is_done (find id jobs) ≡ true
    → is_done (find id (change i f jobs)) ≡ true
is_done-change_live id i f jobs j e live done = elim (Bool-cases (id == i)) [
  | inl same ↦
      (let there : find id jobs ≡ some j = ap (λ k. find k jobs) ((==_iff id i).0 same) ∙ e in
        ground (arith, ap is_done there, live, done))
  | inr other ↦ ap is_done (find-change i id f jobs) ∙ kept other (find id jobs) done
]
  where
    kept :
        (id == i) ≡ false
        → (o : Option Job) → is_done o ≡ true
        → is_done (elim o [ none ↦ none | some a ↦ some (if id == i then f a else a) ]) ≡ true
    kept other none d = refl
    kept other (some a) d = ap (λ b. is_done (some (if b then f a else a))) other ∙ d

is_done-awaits_upload : (j : Job) → awaits_upload j.status ≡ true → is_done (some j) ≡ false
is_done-awaits_upload j e = ground (arith, e)

is_done-is_running : (j : Job) → is_running j.status ≡ true → is_done (some j) ≡ false
is_done-is_running j e = ground (arith, e)

is_done-mark_found :
    (id i user now : ℕ) (jobs : Table Job) (o : Option Job)
    → find i jobs ≡ o
    → is_done (find id jobs) ≡ true
    → is_done (find id (mark_found jobs i now (owned user o)).1) ≡ true
is_done-mark_found id i user now jobs none e done = done
is_done-mark_found id i user now jobs (some j) e done =
    if_elim {A = Option Job} (λ o. is_done (find id (mark_found jobs i now o).1) ≡ true)
      (is_owner user j) _ _
      (λ _.
        if_elim {A = Option Job × Table Job} (λ r. is_done (find id r.1) ≡ true)
          (awaits_upload j.status) _ _
          (λ up.
            is_done-change_live id i (begin_processing now) jobs j e (is_done-awaits_upload j up)
              done)
          (λ _. done))
      (λ _. done)

is_done-begin_images :
    (id i now : ℕ) (jobs : Table Job) (ks : List Key) (j : Job)
    → find i jobs ≡ some j
    → is_done (some j) ≡ false
    → is_done (find id jobs) ≡ true
    → is_done (find id (begin_images jobs i now ks).1) ≡ true
is_done-begin_images id i now jobs [] j e live done =
    is_done-change_live id i (fail_with (codes "No images attached") now) jobs j e live done
is_done-begin_images id i now jobs (k ∷ ks) j e live done = done

is_done-begin_found :
    (id i user now : ℕ) (jobs : Table Job) (o : Option Job)
    → find i jobs ≡ o
    → is_done (find id jobs) ≡ true
    → is_done (find id (begin_found jobs i now (owned user o)).1) ≡ true
unfolding start
is_done-begin_found id i user now jobs none e done = done
is_done-begin_found id i user now jobs (some j) e done =
    if_elim {A = Option Job} (λ o. is_done (find id (begin_found jobs i now o).1) ≡ true)
      (is_owner user j) _ _
      (λ _.
        if_elim {A = Begun × Table Job} (λ r. is_done (find id r.1) ≡ true) (is_running j.status) _
          _
          (λ running.
            is_done-begin_images id i now (change i (start now) jobs) j.images_s3_keys (start now j)
              (find-change_found i (start now) jobs j e) refl
              (is_done-change_live id i (start now) jobs j e (is_done-is_running j running) done))
          (λ _. done))
      (λ _. done)

is_done-delete_found :
    (id i user : ℕ) (jobs : Table Job) (cards : List Graded) (o : Option Job)
    → is_done (find id jobs) ≡ true
    → is_done (find id (delete_found jobs cards i (owned user o)).1) ≡ true
is_done-delete_found id i user jobs cards none done = done
is_done-delete_found id i user jobs cards (some j) done =
    if_elim {A = Option Job} (λ o. is_done (find id (delete_found jobs cards i o).1) ≡ true)
      (is_owner user j) _ _
      (λ _.
        ap is_done (find-delete i id jobs)
        ∙ if_elim {A = Option Job} (λ o. is_done o ≡ true) (id == i) _ _ (λ _. refl) (λ _. done))
      (λ _. done)

is_done-fail :
    (id i now : ℕ) (m : Text) (jobs : Table Job)
    → is_done (find id jobs) ≡ true
    → is_done (find id (fail jobs i m now)) ≡ true
unfolding fail
is_done-fail id i now m jobs done =
    is_done-change id i (fail_running m now) jobs (λ (j : Job) d. ground (arith, d)) done

-- What an id that was given out keeps along the steps.
abbrev IsDoneIn : ℕ → World → Type 0
IsDoneIn id w = id < w.next_id × is_done (find id w.jobs) ≡ true

stored-IsDoneIn :
    (id : ℕ) (w : World) (others : List Run) (r : Run) (card phash now created : ℕ) (copy : Bool)
    (o : Option Job)
    → IsDoneIn id w
    → IsDoneIn id (
        stored w others r.job_id now
          (store_row w.jobs w.cards r.user_id r.job_id card phash created copy now o))
unfolding complete_at
stored-IsDoneIn id w others r card phash now created copy none (less, done) =
    (less, is_done-fail id r.job_id now (codes "StaleDataError") w.jobs done)
stored-IsDoneIn id w others r card phash now created copy (some j) (less, done) =
    (less, is_done-change id r.job_id (complete_at now) w.jobs (λ (j : Job) d. refl) done)

is_done-create_job :
    (jobs : Table Job) (id new user : ℕ) (p : JobCreate)
    → id < new
    → is_done (find id jobs) ≡ true
    → is_done (find id (create_job jobs new user p).1) ≡ true
unfolding create_job find
is_done-create_job jobs id new user p less done =
    if_elim {A = Option Job} (λ o. is_done o ≡ true) (new == id) _ _
      (λ same. ground (arith, (==_iff new id).0 same, less)) (λ _. done)

Step-IsDoneIn : (id : ℕ) {w u : World} → Step w u → IsDoneIn id w → IsDoneIn id u
unfolding mark_complete delete_job begin_process get_for_user store
Step-IsDoneIn id {w} (creates user p) (less, done) =
    (omega (arith, less), is_done-create_job w.jobs id w.next_id user p less done)
Step-IsDoneIn id {w} (marks user i now) (less, done) =
    (less, is_done-mark_found id i user now w.jobs (find i w.jobs) refl done)
Step-IsDoneIn id {w} (deletes user i) (less, done) =
    (less, is_done-delete_found id i user w.jobs w.cards (find i w.jobs) done)
Step-IsDoneIn id {w} (begins user i now) (less, done) =
    (less, is_done-begin_found id i user now w.jobs (find i w.jobs) refl done)
Step-IsDoneIn id {w} (looks before after r card phash now e at) kept = kept
Step-IsDoneIn id {w} (stores before after r card phash now created copy e at) kept =
    stored-IsDoneIn id w (before ++ after) r card phash now created copy (find r.job_id w.jobs) kept
Step-IsDoneIn id {w} (crashes before after r m now e) (less, done) =
    (less, is_done-fail id r.job_id now m w.jobs done)

Reach-IsDoneIn : (id : ℕ) {v w : World} → Reach v w → IsDoneIn id v → IsDoneIn id w
Reach-IsDoneIn id here kept = kept
Reach-IsDoneIn id (next way step) kept = Step-IsDoneIn id step (Reach-IsDoneIn id way kept)

-- A complete scan is never dragged backwards: from any state that is reached, by the owners' requests
-- and by runs of the worker that overlap in any order, crash or are delivered again, a job that was complete is
-- complete, or deleted, in every later state. Each transaction is taken as one step.
pub Reach-is_done :
    (id : ℕ) {v w : World}
    → Reach v w
    → id < v.next_id
    → is_done (find id v.jobs) ≡ true
    → is_done (find id w.jobs) ≡ true
Reach-is_done id way less done = (Reach-IsDoneIn id way (less, done)).1
