-- ===== src/Scan/Worker.antt =====
-- What the worker does with a job (app/tasks/scan_processor.py). Grading, fingerprints and the resolver of
-- cards give their results as arguments; the events that it publishes are not modelled.
use loupe_backend.Prelude.{
  ℕ, ◌+◌, ◌*◌, Bool, true, false, ◌&&◌, ◌||◌, not, Option, none, some, List, [], ◌∷◌, leb, ◌==◌,
  if◌then◌else◌, is_some, take,
}
use loupe_backend.Prelude.Text.{Text, codes}
use loupe_backend.Prelude.Tables.{Table, find, change}
use loupe_backend.Scan.{
  Status, uploading, processing, complete, failed, Key, Job, Graded, opt_eq, get_for_user,
  mark_complete,
}

-- What the first part of `_process` comes to; the rest runs on `runs`.
pub data Begun : Type 0 where
  not_found skipped no_images runs : Begun

abbrev pub is_running : Status → Bool
is_running uploading = true
is_running processing = true
is_running _ = false

unfoldable pub start : ℕ → Job → Job
start now j = record j {
  status = processing;
  started_at = elim j.started_at [ none ↦ some now | some t ↦ some t ];
}

unfoldable pub fail_with : Text → ℕ → Job → Job
fail_with message now j = record j {
  status = failed;
  error_message = some message;
  completed_at = some now;
}

unfoldable pub complete_at : ℕ → Job → Job
complete_at now j = record j { status = complete; completed_at = some now }

abbrev pub begin_images : Table Job → ℕ → ℕ → List Key → Begun × Table Job
begin_images jobs id now [] =
    (no_images, change id (fail_with (codes "No images attached") now) jobs)
begin_images jobs id now (k ∷ ks) = (runs, jobs)

abbrev pub begin_found : Table Job → ℕ → ℕ → Option Job → Begun × Table Job
begin_found jobs id now none = (not_found, jobs)
begin_found jobs id now (some j) =
    if is_running j.status
    then begin_images (change id (start now) jobs) id now j.images_s3_keys
    else (skipped, jobs)

-- `_process`, up to the grading.
unfoldable pub begin_process : Table Job → ℕ → ℕ → ℕ → Begun × Table Job
unfolding get_for_user change start fail_with
begin_process jobs user id now = begin_found jobs id now (get_for_user jobs user id)

abbrev pub dup_window : ℕ
dup_window = 5 * 60

-- A live row of the same user, card and fingerprint that was created in the last five minutes.
unfoldable pub is_copy : ℕ → ℕ → ℕ → ℕ → Graded → Bool
is_copy user card phash now g =
    g.user_id == user
    && g.card_id == card
    && opt_eq phash g.fingerprint_hash
    && leb now (g.created_at + dup_window)
    && not (is_some g.deleted_at)

unfoldable pub has_copy : ℕ → ℕ → ℕ → ℕ → List Graded → Bool
unfolding is_copy
has_copy user card phash now [] = false
has_copy user card phash now (g ∷ gs) =
    is_copy user card phash now g || has_copy user card phash now gs

abbrev pub graded : ℕ → ℕ → ℕ → ℕ → ℕ → Graded
graded user id card phash created = record {
  user_id = user;
  card_id = card;
  scan_job_id = some id;
  fingerprint_hash = some phash;
  created_at = created;
  deleted_at = none;
}

-- The last transaction of `_process`, where `created` is the time that the database gives a new row, its
-- own clock's at the start of the transaction: none if it raises, as it does when the job's row is gone.
abbrev pub store_row :
    Table Job
    → List Graded
    → ℕ
    → ℕ
    → ℕ
    → ℕ
    → ℕ
    → Bool
    → ℕ
    → Option Job
    → Option (Table Job × List Graded)
store_row jobs cards user id card phash created copy now none = none
store_row jobs cards user id card phash created copy now (some j) = some (
  change id (complete_at now) jobs,
  (if copy then cards else graded user id card phash created ∷ cards),
)

unfoldable pub store :
    Table Job → List Graded → ℕ → ℕ → ℕ → ℕ → ℕ → Bool → ℕ → Option (Table Job × List Graded)
unfolding find change complete_at
store jobs cards user id card phash created copy now =
    store_row jobs cards user id card phash created copy now (find id jobs)

abbrev pub fail_running : Text → ℕ → Job → Job
fail_running message now j = if is_running j.status then fail_with (take 1024 message) now j else j

-- `_fail`
unfoldable pub fail : Table Job → ℕ → Text → ℕ → Table Job
unfolding change fail_with
fail jobs id message now = change id (fail_running message now) jobs

-- How the work goes: it raises before its first commit or after it, or gives a card, a
-- fingerprint and the time that the database sets on the new row. An exception after the last commit meets a job that `_fail` leaves alone.
pub data Trip : Type 0 where
  raises_first raises_later : Text → Trip
  grades : ℕ → ℕ → ℕ → Trip

abbrev pub or_failed :
    Table Job → List Graded → ℕ → ℕ → Option (Table Job × List Graded) → Table Job × List Graded
or_failed jobs cards id now none = (fail jobs id (codes "StaleDataError") now, cards)
or_failed jobs cards id now (some r) = r

abbrev pub work : List Graded → ℕ → ℕ → Trip → ℕ → Begun × Table Job → Table Job × List Graded
work cards user id (grades card phash created) now (runs, jobs) =
    or_failed jobs cards id now
      (store jobs cards user id card phash created (has_copy user card phash now cards) now)
work cards user id (raises_later message) now (runs, jobs) = (fail jobs id message now, cards)
work cards user id (raises_first message) now (runs, jobs) = (fail jobs id message now, cards)
work cards user id trip now (not_found, jobs) = (jobs, cards)
work cards user id trip now (skipped, jobs) = (jobs, cards)
work cards user id trip now (no_images, jobs) = (jobs, cards)

-- `process_scan`, with no other run between its transactions.
unfoldable pub process_scan : Table Job → List Graded → ℕ → ℕ → Trip → ℕ → Table Job × List Graded
unfolding begin_process store has_copy fail
process_scan jobs cards user id (raises_first message) now = (fail jobs id message now, cards)
process_scan jobs cards user id (raises_later message) now =
    work cards user id (raises_later message) now (begin_process jobs user id now)
process_scan jobs cards user id (grades card phash created) now =
    work cards user id (grades card phash created) now (begin_process jobs user id now)

abbrev pub process_found :
    List Graded → ℕ → ℕ → Trip → ℕ → Option Job × Table Job → Option (Table Job × List Graded)
process_found cards user id trip now (none, jobs) = none
process_found cards user id trip now (some j, jobs) =
    some (process_scan jobs cards user id trip now)

-- The route `complete_scan`: none is its 404.
unfoldable pub complete_scan :
    Table Job → List Graded → ℕ → ℕ → Trip → ℕ → Option (Table Job × List Graded)
unfolding mark_complete process_scan
complete_scan jobs cards user id trip now =
    process_found cards user id trip now (mark_complete jobs user id now)
