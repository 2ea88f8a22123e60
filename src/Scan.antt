-- ===== src/Scan.antt =====
-- Scan jobs (app/services/collection/scan_service.py and app/tasks/scan_processor.py): the jobs, and what
-- their owner's requests do to them. The storage that signs the upload addresses is a parameter.
pub mod Worker
pub mod Steps
pub mod Done
pub mod Settled
pub mod Copies
pub mod Again
mod Tests
use loupe_backend.Prelude.{
  ℕ, Bool, true, false, Option, none, some, List, [], ◌∷◌, ◌==◌, if◌then◌else◌,
}
use loupe_backend.Prelude.Text.{Text}
use loupe_backend.Prelude.Tables.{Table, find, change, delete}

pub data Status : Type 0 where
  queued uploading processing complete failed : Status

pub data Source : Type 0 where
  phone scanner : Source

pub data Angle : Type 0 where
  front back top bottom : Angle

-- `_build_s3_key`: "scans/{user_id}/{job_id}/{angle}.jpg"
pub record Key : Type 0 where
  pub user_id : ℕ
  pub job_id : ℕ
  pub angle : Angle

pub record Job : Type 0 where
  pub user_id : ℕ
  pub scanner_id : Option ℕ
  pub status : Status
  pub source : Source
  pub images_s3_keys : List Key
  pub error_message : Option Text
  pub started_at : Option ℕ
  pub completed_at : Option ℕ

-- A graded card, in the columns that a scan reads and writes.
pub record Graded : Type 0 where
  pub user_id : ℕ
  pub card_id : ℕ
  pub scan_job_id : Option ℕ
  pub fingerprint_hash : Option ℕ
  pub created_at : ℕ
  pub deleted_at : Option ℕ

abbrev pub opt_eq : ℕ → Option ℕ → Bool
opt_eq n none = false
opt_eq n (some m) = m == n

pub record JobCreate : Type 0 where
  pub scanner_id : Option ℕ
  pub source : Source
  pub angles : List Angle

-- The keys to sign, one for each angle that is asked for; the row holds the same keys, as a dict by angle.
unfoldable pub build_s3_keys : ℕ → ℕ → List Angle → List Key
build_s3_keys user job [] = []
build_s3_keys user job (a ∷ as_) =
    record { user_id = user; job_id = job; angle = a } ∷ build_s3_keys user job as_

unfoldable pub is_owner : ℕ → Job → Bool
is_owner user j = j.user_id == user

-- `get_for_user`
abbrev pub owned : ℕ → Option Job → Option Job
owned user none = none
owned user (some j) = if is_owner user j then some j else none

unfoldable pub get_for_user : Table Job → ℕ → ℕ → Option Job
unfolding find is_owner
get_for_user jobs user id = owned user (find id jobs)

-- `create_job`, on the id of the new row: the table after it, and the keys to sign.
unfoldable pub create_job : Table Job → ℕ → ℕ → JobCreate → List Key × Table Job
unfolding build_s3_keys
create_job jobs id user p =
    let keys = build_s3_keys user id p.angles in
    (
      keys,
      (
        id,
        record {
          user_id = user;
          scanner_id = p.scanner_id;
          status = uploading;
          source = p.source;
          images_s3_keys = keys;
          error_message = none;
          started_at = none;
          completed_at = none;
        },
      )
          ∷ jobs,
    )

abbrev pub awaits_upload : Status → Bool
awaits_upload queued = true
awaits_upload uploading = true
awaits_upload _ = false

unfoldable pub begin_processing : ℕ → Job → Job
begin_processing now j = record j { status = processing; started_at = some now }

abbrev pub mark_found : Table Job → ℕ → ℕ → Option Job → Option Job × Table Job
mark_found jobs id now none = (none, jobs)
mark_found jobs id now (some j) =
    if awaits_upload j.status
    then (some (begin_processing now j), change id (begin_processing now) jobs)
    else (some j, jobs)

-- `mark_complete`; the angles that are missing are only logged.
unfoldable pub mark_complete : Table Job → ℕ → ℕ → ℕ → Option Job × Table Job
unfolding get_for_user change begin_processing
mark_complete jobs user id now = mark_found jobs id now (get_for_user jobs user id)

-- The foreign key of a card is set to null when its job goes.
abbrev pub unlink : ℕ → List Graded → List Graded
unlink id [] = []
unlink id (g ∷ gs) =
    (if opt_eq id g.scan_job_id then record g { scan_job_id = none } else g) ∷ unlink id gs

abbrev pub delete_found : Table Job → List Graded → ℕ → Option Job → Bool × Table Job × List Graded
delete_found jobs cards id none = (false, jobs, cards)
delete_found jobs cards id (some j) = (true, delete id jobs, unlink id cards)

-- `delete`
unfoldable pub delete_job : Table Job → List Graded → ℕ → ℕ → Bool × Table Job × List Graded
unfolding get_for_user delete
delete_job jobs cards user id = delete_found jobs cards id (get_for_user jobs user id)
