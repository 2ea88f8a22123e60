-- ===== src/Scan/Steps.antt =====
-- Runs of the worker that overlap: their transactions and the owners' requests in any order.
use loupe_backend.Prelude.{ℕ, suc, ◌≡◌, Bool, Option, none, some, List, ◌∷◌, ◌++◌}
use loupe_backend.Prelude.Text.{Text, codes}
use loupe_backend.Prelude.Tables.{Table}
use loupe_backend.Scan.{Job, Graded, JobCreate, create_job, mark_complete, delete_job}
use loupe_backend.Scan.Worker.{
  Begun, not_found, skipped, no_images, runs, begin_process, has_copy, store, fail,
}

-- Where a run of `_process` stands: before it looks for a copy, or with what it has found.
pub data Phase : Type 0 where
  grading : Phase
  looked : ℕ → ℕ → Bool → Phase

pub record Run : Type 0 where
  pub user_id : ℕ
  pub job_id : ℕ
  pub phase : Phase

pub record World : Type 0 where
  pub jobs : Table Job
  pub cards : List Graded
  pub going : List Run
  pub next_id : ℕ

abbrev pub enqueue : ℕ → ℕ → Begun → List Run → List Run
enqueue user id runs going = record { user_id = user; job_id = id; phase = grading } ∷ going
enqueue user id not_found going = going
enqueue user id skipped going = going
enqueue user id no_images going = going

abbrev pub begin_run : World → ℕ → ℕ → ℕ → World
begin_run w user id now =
    let (begun, jobs) = begin_process w.jobs user id now in
    record w { jobs = jobs; going = enqueue user id begun w.going }

abbrev pub crash_run : World → List Run → ℕ → Text → ℕ → World
crash_run w others id message now = record w { jobs = fail w.jobs id message now; going = others }

abbrev pub stored : World → List Run → ℕ → ℕ → Option (Table Job × List Graded) → World
stored w others id now none = crash_run w others id (codes "StaleDataError") now
stored w others id now (some (jobs, cards)) = record w {
  jobs = jobs;
  cards = cards;
  going = others;
}

abbrev pub store_run : World → List Run → Run → ℕ → ℕ → ℕ → Bool → ℕ → World
store_run w others r card phash created copy now =
    stored w others r.job_id now
      (store w.jobs w.cards r.user_id r.job_id card phash created copy now)

-- A run is picked from among those that go on, which are `before ++ r ∷ after`.
pub data Step (w : World) : World → Type 0 where
  creates :
      (user : ℕ) (p : JobCreate)
      → Step w (record w { jobs = (create_job w.jobs w.next_id user p).1; next_id = suc w.next_id })
  marks : (user id now : ℕ) → Step w (record w { jobs = (mark_complete w.jobs user id now).1 })
  deletes :
      (user id : ℕ)
      → Step w (record w {
        jobs = (delete_job w.jobs w.cards user id).1;
        cards = (delete_job w.jobs w.cards user id).2;
      })
  begins : (user id now : ℕ) → Step w (begin_run w user id now)
  looks :
      (before after : List Run) (r : Run) (card phash now : ℕ)
      → w.going ≡ before ++ r ∷ after
      → r.phase ≡ grading
      → Step w (record w {
        going =
            before
            ++ record r { phase = looked card phash (has_copy r.user_id card phash now w.cards) }
              ∷ after;
      })
  stores :
      (before after : List Run) (r : Run) (card phash now created : ℕ) (copy : Bool)
      → w.going ≡ before ++ r ∷ after
      → r.phase ≡ looked card phash copy
      → Step w (store_run w (before ++ after) r card phash created copy now)
  crashes :
      (before after : List Run) (r : Run) (message : Text) (now : ℕ)
      → w.going ≡ before ++ r ∷ after
      → Step w (crash_run w (before ++ after) r.job_id message now)

pub data Reach (v : World) : World → Type 0 where
  here : Reach v v
  next : {t w : World} → Reach v t → Step t w → Reach v w
