-- ===== src/Scan/Copies.antt =====
-- How far apart scans that are delivered one after the other store a photo again (scan_processor.py).
use loupe_backend.Prelude.{
  if_elim, ℕ, ◌+◌, ◌≡◌, refl, Bool, true, false, ◌&&◌, ◌||◌, not, Option, none, some, List, [], ◌∷◌,
  arith, ltb, ◌==◌, is_some, leb, lt→ltb, leb→le,
}
use loupe_backend.Prelude.Tables.{Table, find}
use loupe_backend.Scan.{Job, Graded, opt_eq}
use loupe_backend.Scan.Worker.{
  Begun, not_found, skipped, no_images, runs, begin_process, dup_window, is_copy, has_copy, graded,
  store_row, store, Trip, raises_first, raises_later, grades, or_failed, work, process_scan,
}

-- One delivery of the task `process_scan`.
pub record Delivery : Type 0 where
  pub user_id : ℕ
  pub job_id : ℕ
  pub trip : Trip
  pub now : ℕ

unfoldable pub process_all : Table Job → List Graded → List Delivery → Table Job × List Graded
unfolding process_scan
process_all jobs cards [] = (jobs, cards)
process_all jobs cards (d ∷ ds) =
    let (jobs2, cards2) = process_scan jobs cards d.user_id d.job_id d.trip d.now in
    process_all jobs2 cards2 ds

abbrev same_print : Option ℕ → Option ℕ → Bool
same_print none o = false
same_print (some phash) o = opt_eq phash o

-- The same photo: one user, card and fingerprint.
abbrev pub is_same : Graded → Graded → Bool
is_same g h =
    h.user_id == g.user_id
    && h.card_id == g.card_id
    && same_print g.fingerprint_hash h.fingerprint_hash

-- A row g that came after h: one of them is deleted, or h is another photo, or more than five minutes less
-- the lag older.
abbrev pub is_apart : ℕ → Graded → Graded → Bool
is_apart lag g h =
    is_some g.deleted_at
    || is_some h.deleted_at
    || not (is_same g h)
    || ltb (h.created_at + dup_window) (g.created_at + lag)

unfoldable pub is_apart_all : ℕ → Graded → List Graded → Bool
is_apart_all lag g [] = true
is_apart_all lag g (h ∷ hs) = is_apart lag g h && is_apart_all lag g hs

-- The rows, the newest first.
unfoldable pub is_spaced : ℕ → List Graded → Bool
unfolding is_apart_all
is_spaced lag [] = true
is_spaced lag (g ∷ gs) = is_apart_all lag g gs && is_spaced lag gs

-- A delivery whose row gets a time that is before the search for a copy by the lag at most.
unfoldable pub is_prompt : ℕ → ℕ → Trip → Bool
is_prompt lag now (grades card phash created) = leb now (created + lag)
is_prompt lag now (raises_first m) = true
is_prompt lag now (raises_later m) = true

unfoldable pub all_prompt : ℕ → List Delivery → Bool
unfolding is_prompt
all_prompt lag [] = true
all_prompt lag (d ∷ ds) = is_prompt lag d.now d.trip && all_prompt lag ds

is_apart-is_copy :
    (user id card phash now created lag : ℕ) (h : Graded)
    → leb now (created + lag) ≡ true
    → is_copy user card phash now h ≡ false
    → is_apart lag (graded user id card phash created) h ≡ true
unfolding is_copy
is_apart-is_copy user id card phash now created lag h soon e = ground (
  arith,
  e,
  leb→le now (created + lag) soon,
  leb→le now (h.created_at + dup_window),
  lt→ltb (h.created_at + dup_window) (created + lag),
)

is_apart_all-has_copy :
    (user id card phash now created lag : ℕ) (hs : List Graded)
    → leb now (created + lag) ≡ true
    → has_copy user card phash now hs ≡ false
    → is_apart_all lag (graded user id card phash created) hs ≡ true
unfolding has_copy is_apart_all
is_apart_all-has_copy user id card phash now created lag [] soon e = refl
is_apart_all-has_copy user id card phash now created lag (h ∷ hs) soon e =
    rw (is_apart-is_copy user id card phash now created lag h soon (left e))
      (is_apart_all-has_copy user id card phash now created lag hs soon (right e))
  where
    left :
        (is_copy user card phash now h || has_copy user card phash now hs) ≡ false
        → is_copy user card phash now h ≡ false
    left d = ground (arith, d)

    right :
        (is_copy user card phash now h || has_copy user card phash now hs) ≡ false
        → has_copy user card phash now hs ≡ false
    right d = ground (arith, d)

is_spaced-store_row :
    (jobs : Table Job) (cards : List Graded) (user id card phash now created lag : ℕ)
    (o : Option Job)
    → leb now (created + lag) ≡ true
    → is_spaced lag cards ≡ true
    → is_spaced lag
        (or_failed jobs cards id now (
          store_row jobs cards user id card phash created
            (has_copy user card phash now cards)
            now
            o)).1
      ≡ true
unfolding is_spaced
is_spaced-store_row jobs cards user id card phash now created lag none soon spaced = spaced
is_spaced-store_row jobs cards user id card phash now created lag (some j) soon spaced =
    if_elim {A = List Graded} (λ gs. is_spaced lag gs ≡ true) (has_copy user card phash now cards) _
      _ (λ _. spaced)
      (λ fresh.
        rw (is_apart_all-has_copy user id card phash now created lag cards soon fresh) spaced)

is_spaced-work :
    (cards : List Graded) (user id now lag : ℕ) (trip : Trip) (b : Begun × Table Job)
    → is_prompt lag now trip ≡ true
    → is_spaced lag cards ≡ true
    → is_spaced lag (work cards user id trip now b).1 ≡ true
unfolding store is_prompt
is_spaced-work cards user id now lag (grades card phash created) (runs, jobs) soon spaced =
    is_spaced-store_row jobs cards user id card phash now created lag (find id jobs) soon spaced
is_spaced-work cards user id now lag (raises_later m) (runs, jobs) soon spaced = spaced
is_spaced-work cards user id now lag (raises_first m) (runs, jobs) soon spaced = spaced
is_spaced-work cards user id now lag (grades card phash created) (not_found, jobs) soon spaced =
    spaced
is_spaced-work cards user id now lag (grades card phash created) (skipped, jobs) soon spaced =
    spaced
is_spaced-work cards user id now lag (grades card phash created) (no_images, jobs) soon spaced =
    spaced
is_spaced-work cards user id now lag (raises_later m) (not_found, jobs) soon spaced = spaced
is_spaced-work cards user id now lag (raises_later m) (skipped, jobs) soon spaced = spaced
is_spaced-work cards user id now lag (raises_later m) (no_images, jobs) soon spaced = spaced
is_spaced-work cards user id now lag (raises_first m) (not_found, jobs) soon spaced = spaced
is_spaced-work cards user id now lag (raises_first m) (skipped, jobs) soon spaced = spaced
is_spaced-work cards user id now lag (raises_first m) (no_images, jobs) soon spaced = spaced

is_spaced-process_scan :
    (jobs : Table Job) (cards : List Graded) (user id now lag : ℕ) (trip : Trip)
    → is_prompt lag now trip ≡ true
    → is_spaced lag cards ≡ true
    → is_spaced lag (process_scan jobs cards user id trip now).1 ≡ true
unfolding process_scan
is_spaced-process_scan jobs cards user id now lag (raises_first m) soon spaced = spaced
is_spaced-process_scan jobs cards user id now lag (raises_later m) soon spaced =
    is_spaced-work cards user id now lag (raises_later m) (begin_process jobs user id now) soon
      spaced
is_spaced-process_scan jobs cards user id now lag (grades card phash created) soon spaced =
    is_spaced-work cards user id now lag (grades card phash created)
      (begin_process jobs user id now) soon spaced

-- Scans that are delivered one after the other, of whatever jobs, at whatever times and however often, keep
-- the copies of a photo apart. Where the time that the database sets on a new row is at most the lag before
-- the worker's time at its search for a copy, any two live rows of one user, card and fingerprint are more
-- than five minutes less the lag apart by their stored times, the later row being the later one, if they
-- were so before.
pub is_spaced-process_all :
    (jobs : Table Job) (cards : List Graded) (ds : List Delivery) (lag : ℕ)
    → all_prompt lag ds ≡ true
    → is_spaced lag cards ≡ true
    → is_spaced lag (process_all jobs cards ds).1 ≡ true
unfolding process_all all_prompt
is_spaced-process_all jobs cards [] lag soon spaced = spaced
is_spaced-process_all jobs cards (d ∷ ds) lag soon spaced =
    let r = process_scan jobs cards d.user_id d.job_id d.trip d.now in
    is_spaced-process_all r.0 r.1 ds lag (ground (arith, soon)) (
      is_spaced-process_scan jobs cards d.user_id d.job_id d.now lag d.trip (ground (arith, soon))
        spaced)
