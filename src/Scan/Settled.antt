-- ===== src/Scan/Settled.antt =====
-- That a scan ends (scan_processor.py).
use loupe_backend.Prelude.{
  if_elim, ℕ, ◌≡◌, refl, ap, ◌∙◌, Bool, true, false, ◌&&◌, ◌||◌, Option, none, some, List, [], ◌∷◌,
  arith, if◌then◌else◌, is_some,
}
use loupe_backend.Prelude.Text.{Text, codes}
use loupe_backend.Prelude.Tables.{Table, find, change, find-change}
use loupe_backend.Scan.{
  Status, complete, failed, Key, Job, Graded, is_owner, owned, get_for_user, awaits_upload,
  begin_processing, mark_found, mark_complete,
}
use loupe_backend.Scan.Worker.{
  skipped, runs, is_running, start, fail_with, complete_at, begin_images, begin_found,
  begin_process, has_copy, store_row, store, fail_running, fail, Trip, raises_first, raises_later,
  grades, or_failed, work, process_scan, process_found, complete_scan,
}

abbrev pub is_ended : Status → Bool
is_ended complete = true
is_ended failed = true
is_ended _ = false

-- A job that is there and has ended, with the time of it.
abbrev pub has_ended : Option Job → Bool
has_ended none = false
has_ended (some j) = is_ended j.status && is_some j.completed_at

pub find-change_found :
    (id : ℕ) (f : Job → Job) (jobs : Table Job) (j : Job)
    → find id jobs ≡ some j
    → find id (change id f jobs) ≡ some (f j)
find-change_found id f jobs j e = find-change id id f jobs ∙ rw e (ground arith)

has_ended-fail :
    (jobs : Table Job) (id now : ℕ) (m : Text) (j : Job)
    → find id jobs ≡ some j
    → is_running j.status ≡ true
    → has_ended (find id (fail jobs id m now)) ≡ true
unfolding fail fail_with
has_ended-fail jobs id now m j e running =
    ap has_ended (find-change_found id (fail_running m now) jobs j e) ∙ ground (arith, running)

has_ended-store :
    (jobs : Table Job) (cards : List Graded) (user id card phash created now : ℕ) (copy : Bool)
    (j : Job)
    → find id jobs ≡ some j
    → has_ended (
        find id
          (or_failed jobs cards id now (store jobs cards user id card phash created copy now)).0)
      ≡ true
unfolding store complete_at
has_ended-store jobs cards user id card phash created now copy j e =
    ap
      (λ o. has_ended (
        find id
          (or_failed jobs cards id now
            (store_row jobs cards user id card phash created copy now o)).0))
      e
    ∙ ap has_ended (find-change_found id (complete_at now) jobs j e)

has_ended-work :
    (jobs : Table Job) (cards : List Graded) (user id now : ℕ) (trip : Trip) (j : Job)
    → find id jobs ≡ some j
    → is_running j.status ≡ true
    → has_ended (find id (work cards user id trip now (runs, jobs)).0) ≡ true
has_ended-work jobs cards user id now (raises_first m) j e running =
    has_ended-fail jobs id now m j e running
has_ended-work jobs cards user id now (raises_later m) j e running =
    has_ended-fail jobs id now m j e running
has_ended-work jobs cards user id now (grades card phash created) j e running =
    has_ended-store jobs cards user id card phash created now (has_copy user card phash now cards) j
      e

has_ended-begin_images :
    (jobs : Table Job) (cards : List Graded) (user id now : ℕ) (trip : Trip) (ks : List Key)
    (j : Job)
    → find id jobs ≡ some j
    → is_running j.status ≡ true
    → has_ended (find id (work cards user id trip now (begin_images jobs id now ks)).0) ≡ true
unfolding fail_with
has_ended-begin_images jobs cards user id now trip [] j e running =
    ap has_ended (find-change_found id (fail_with (codes "No images attached") now) jobs j e)
has_ended-begin_images jobs cards user id now trip (k ∷ ks) j e running =
    has_ended-work jobs cards user id now trip j e running

has_ended-begin_found :
    (jobs : Table Job) (cards : List Graded) (user id now : ℕ) (trip : Trip) (j : Job)
    → find id jobs ≡ some j
    → is_owner user j ≡ true
    → is_running j.status ≡ true
    → has_ended (
        find id
          (work cards user id trip now (begin_found jobs id now (owned user (find id jobs)))).0)
      ≡ true
unfolding start
has_ended-begin_found jobs cards user id now trip j e own running =
    ap (λ o. has_ended (find id (work cards user id trip now (begin_found jobs id now o)).0))
      (ap (owned user) e ∙ ap (λ b. if b then some j else none) own)
    ∙ ap
        (λ b. has_ended (
          find id
            (work cards user id trip now (
              if b
              then begin_images (change id (start now) jobs) id now j.images_s3_keys
              else (skipped, jobs))).0))
        running
    ∙ has_ended-begin_images (change id (start now) jobs) cards user id now trip j.images_s3_keys
        (start now j) (find-change_found id (start now) jobs j e) refl

pub has_ended-process_scan :
    (jobs : Table Job) (cards : List Graded) (user id now : ℕ) (trip : Trip) (j : Job)
    → find id jobs ≡ some j
    → is_owner user j ≡ true
    → is_running j.status ≡ true
    → has_ended (find id (process_scan jobs cards user id trip now).0) ≡ true
unfolding process_scan begin_process get_for_user
has_ended-process_scan jobs cards user id now (raises_first m) j e own running =
    has_ended-fail jobs id now m j e running
has_ended-process_scan jobs cards user id now (raises_later m) j e own running =
    has_ended-begin_found jobs cards user id now (raises_later m) j e own running
has_ended-process_scan jobs cards user id now (grades card phash created) j e own running =
    has_ended-begin_found jobs cards user id now (grades card phash created) j e own running

abbrev pub has_ended_after : ℕ → Option (Table Job × List Graded) → Bool
has_ended_after id none = false
has_ended_after id (some r) = has_ended (find id r.0)

mark_owned :
    (jobs : Table Job) (cards : List Graded) (user id now : ℕ) (trip : Trip) (j : Job)
    → find id jobs ≡ some j
    → is_owner user j ≡ true
    → (awaits_upload j.status || is_running j.status) ≡ true
    → has_ended_after id (process_found cards user id trip now (mark_found jobs id now (some j)))
      ≡ true
unfolding begin_processing is_owner
mark_owned jobs cards user id now trip j e own live =
    if_elim {A = Option Job × Table Job}
      (λ r. has_ended_after id (process_found cards user id trip now r) ≡ true)
      (awaits_upload j.status) _ _
      (λ _.
        has_ended-process_scan (change id (begin_processing now) jobs) cards user id now trip
          (begin_processing now j) (find-change_found id (begin_processing now) jobs j e) own refl)
      (λ past.
        has_ended-process_scan jobs cards user id now trip j e own (ground (arith, live, past)))

-- A scan never hangs: when its owner reports the upload of a job that has not ended, the job has ended
-- after the request, complete or failed and with the time of it, wherever the work raises and
-- whether or not any image is attached. The update of `_fail` is taken to reach the database, which the
-- code only logs when it does not.
pub complete_scan_ends :
    (jobs : Table Job) (cards : List Graded) (user id now : ℕ) (trip : Trip) (j : Job)
    → find id jobs ≡ some j
    → is_owner user j ≡ true
    → (awaits_upload j.status || is_running j.status) ≡ true
    → has_ended_after id (complete_scan jobs cards user id trip now) ≡ true
unfolding complete_scan mark_complete get_for_user
complete_scan_ends jobs cards user id now trip j e own live =
    ap (λ o. has_ended_after id (process_found cards user id trip now (mark_found jobs id now o)))
      (ap (owned user) e ∙ ap (λ b. if b then some j else none) own)
    ∙ mark_owned jobs cards user id now trip j e own live
