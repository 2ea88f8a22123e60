-- ===== src/Scan/Tests.antt =====
-- Scan jobs on concrete data.
use loupe_backend.Prelude.{◌≡◌, refl, true, false, Option, none, some, List, [], ◌∷◌, map, arith}
use loupe_backend.Prelude.Text.{codes}
use loupe_backend.Prelude.Tables.{Table, find, change}
use loupe_backend.Scan.{
  Status, uploading, processing, complete, failed, phone, front, back, Job, Graded, JobCreate,
  build_s3_keys, is_owner, get_for_user, create_job,
}
use loupe_backend.Scan.Worker.{
  start, fail_with, complete_at, begin_process, is_copy, has_copy, store, fail, grades,
  process_scan, complete_scan,
}
use loupe_backend.Scan.Settled.{has_ended_after, complete_scan_ends}
use loupe_backend.Scan.Steps.{
  Phase, grading, looked, Run, World, crash_run, store_run, looks, stores, crashes, Reach, here,
  next,
}
use loupe_backend.Scan.Done.{is_done, Reach-is_done}
use loupe_backend.Scan.Copies.{
  Delivery, process_all, is_spaced, is_prompt, all_prompt, is_spaced-process_all,
}

-- User 7 creates job 1 with two photos.
abbrev asked : JobCreate
asked = record { scanner_id = none; source = phone; angles = front ∷ back ∷ [] }

abbrev first_job : Job
first_job = record {
  user_id = 7;
  scanner_id = none;
  status = uploading;
  source = phone;
  images_s3_keys =
      record { user_id = 7; job_id = 1; angle = front }
      ∷ record { user_id = 7; job_id = 1; angle = back }
      ∷ [];
  error_message = none;
  started_at = none;
  completed_at = none;
}

abbrev made : Table Job
made = (1, first_job) ∷ []

create_job_run : (create_job [] 1 7 asked).1 ≡ made
unfolding create_job build_s3_keys
create_job_run = refl

complete_scan_ends_example :
    has_ended_after 1 (complete_scan made [] 7 1 (grades 5 99 998) 1000) ≡ true
unfolding find is_owner
complete_scan_ends_example =
    complete_scan_ends made [] 7 1 1000 (grades 5 99 998) first_job refl refl refl

-- Three jobs with the same photo; the database's times of the later two are two seconds early.
abbrev deliveries : List Delivery
deliveries =
    record { user_id = 7; job_id = 1; trip = grades 5 99 1000; now = 1000 }
    ∷ record { user_id = 7; job_id = 1; trip = grades 5 99 1001; now = 1001 }
    ∷ record { user_id = 7; job_id = 2; trip = grades 5 99 1298; now = 1300 }
    ∷ record { user_id = 7; job_id = 3; trip = grades 5 99 1299; now = 1301 }
    ∷ []

abbrev three_jobs : Table Job
three_jobs = (3, first_job) ∷ (2, first_job) ∷ (1, first_job) ∷ []

is_spaced-process_all_example : is_spaced 2 (process_all three_jobs [] deliveries).1 ≡ true
unfolding is_spaced all_prompt is_prompt
is_spaced-process_all_example = is_spaced-process_all three_jobs [] deliveries 2 refl refl

-- The scan at 1300 finds a copy and that at 1301 none, though it is stored as 299 seconds after the first.
process_all_run :
    map (λ (g : Graded). g.created_at) (process_all three_jobs [] deliveries).1 ≡ 1299 ∷ 1000 ∷ []
unfolding process_all process_scan begin_process get_for_user find is_owner change start fail_with
    has_copy is_copy store complete_at
process_all_run = refl

-- Two runs of one job, as when a client sends its POST again while the first one works.
abbrev run_of : Phase → Run
run_of p = record { user_id = 7; job_id = 1; phase = p }

abbrev world : Status → List Graded → List Run → World
world s cards going = record {
  jobs = (1, record first_job { status = s; started_at = some 1000 }) ∷ [];
  cards = cards;
  going = going;
  next_id = 2;
}

abbrev started : World
started = world processing [] (run_of grading ∷ run_of grading ∷ [])

abbrev one_looked : World
one_looked = world processing [] (run_of (looked 5 99 false) ∷ run_of grading ∷ [])

abbrev both_looked : World
both_looked = world processing [] (run_of (looked 5 99 false) ∷ run_of (looked 5 99 false) ∷ [])

abbrev one_stored : World
unfolding store find change complete_at
one_stored =
    store_run both_looked (run_of (looked 5 99 false) ∷ []) (run_of (looked 5 99 false)) 5 99 1001
      false 1002

abbrev both_stored : World
unfolding store find change complete_at
both_stored = store_run one_stored [] (run_of (looked 5 99 false)) 5 99 1002 false 1003

-- Both look before either stores, and each stores the photo.
overlap : Reach started both_stored
unfolding has_copy store find change complete_at
overlap =
    next
      (next
        (next (next here (looks [] (run_of grading ∷ []) (run_of grading) 5 99 1000 refl refl))
          (looks (run_of (looked 5 99 false) ∷ []) [] (run_of grading) 5 99 1001 refl refl))
        (stores [] (run_of (looked 5 99 false) ∷ []) (run_of (looked 5 99 false)) 5 99 1002 1001
          false refl refl))
      (stores [] [] (run_of (looked 5 99 false)) 5 99 1003 1002 false refl refl)

overlap-cards : is_spaced 2 both_stored.cards ≡ false
unfolding store find change complete_at is_spaced
overlap-cards = refl

-- A run that goes on after the other one is complete, and crashes.
abbrev after_crash : World
unfolding store find change complete_at fail fail_with
after_crash = crash_run one_stored [] 1 (codes "OSError") 1003

crash_later : Reach one_stored after_crash
unfolding store find change complete_at fail fail_with
crash_later = next here (crashes [] [] (run_of (looked 5 99 false)) (codes "OSError") 1003 refl)

Reach-is_done_example : is_done (find 1 after_crash.jobs) ≡ true
unfolding store find change complete_at fail fail_with
Reach-is_done_example = Reach-is_done 1 crash_later (omega arith) refl

-- A job that one run failed is complete by the other's end.
abbrev failed_first : World
unfolding fail change fail_with
failed_first = crash_run both_looked (run_of (looked 5 99 false) ∷ []) 1 (codes "OSError") 1002

abbrev stored_later : World
unfolding fail change fail_with store find complete_at
stored_later = store_run failed_first [] (run_of (looked 5 99 false)) 5 99 1002 false 1003

abbrev status_of : Option Job → Option Status
status_of o = elim o [ none ↦ none | some j ↦ some j.status ]

failed_first-status : status_of (find 1 failed_first.jobs) ≡ some failed
unfolding fail change fail_with find
failed_first-status = refl

stored_later-status : status_of (find 1 stored_later.jobs) ≡ some complete
unfolding fail change fail_with store find complete_at
stored_later-status = refl
