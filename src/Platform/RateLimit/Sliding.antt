-- ===== src/Platform/RateLimit/Sliding.antt =====
-- The limiter against its specification: a hit is allowed exactly if fewer than `limit` allowed hits
-- of its key lie within the window before it (rate_limit.py, `hit`).
use loupe_backend.Prelude.{
  ℕ, suc, ◌+◌, ◌≤◌, ◌<◌, String, ◌≡◌, refl, ap, inl, inr, ◌&&◌, List, [], ◌∷◌, ◌++◌, arith, str_eq,
  eq_iff, ltb, leb, if◌then◌else◌, leb→le, Bool-cases, length, length-append, All, get, put,
  get-put,
}
use loupe_backend.Platform.RateLimit.{Bucket, Buckets, SlidingWindow, prune, or_empty, hit_within}

-- Allowed hits, newest first.
abbrev pub Log : Type 0
Log = List (String × ℕ)

-- The hits of a key at `now` or less than or equal to `window` before it.
unfoldable pub recent : ℕ → ℕ → String → Log → ℕ
recent window now k [] = 0
recent window now k ((j, t) ∷ h) =
    if str_eq j k && leb now (t + window)
    then suc (recent window now k h)
    else recent window now k h

-- The specification keeps the whole history.
unfoldable pub spec_log : ℕ → ℕ → Log → Log → Log
unfolding recent
spec_log limit window h [] = h
spec_log limit window h ((k, t) ∷ es) =
    spec_log limit window (if ltb (recent window t k h) limit then (k, t) ∷ h else h) es

-- The hits that the limiter allows.
unfoldable pub log_within : ℕ → ℕ → SlidingWindow → Log → Log → Log
log_within most n w h [] = h
log_within most n w h ((k, t) ∷ es) =
    let (ok, w') = hit_within most n w k t in log_within most n w' (if ok then (k, t) ∷ h else h) es

-- The clock does not run backwards.
abbrev pub Ordered : ℕ → Log → Type 0
Ordered clock [] = Unit {0}
Ordered clock ((k, t) ∷ es) = (clock ≤ t) × Ordered t es

-- The table never holds more than `most` keys when a hit comes, so that nothing is evicted.
abbrev pub Uncrowded : ℕ → ℕ → SlidingWindow → Log → Type 0
Uncrowded most n w [] = Unit {0}
Uncrowded most n w ((k, t) ∷ es) =
    (length w.buckets ≤ most) × Uncrowded most n (hit_within most n w k t).1 es

unfoldable pub bucket_of : String → Buckets → Bucket
bucket_of k m = or_empty (get k m)

bucket_of-put :
    (k j : String) (b : Bucket) (m : Buckets)
    → bucket_of j (put k b m) ≡ (if str_eq k j then b else bucket_of j m)
unfolding bucket_of
bucket_of-put k j b m = ground (arith, get-put k j b m)

-- Pruning at a later time forgets that there was an earlier one.
prune-prune :
    (window t now : ℕ) (b : Bucket)
    → t ≤ now
    → prune window now (prune window t b) ≡ prune window now b
unfolding prune
prune-prune window t now [] h = refl
prune-prune window t now (e ∷ es) h = ground (arith, prune-prune window t now es)

prune_past :
    (window t now : ℕ) (b : Bucket)
    → All (λ e. e ≤ t) b
    → t + window < now
    → prune window now b ≡ []
unfolding prune
prune_past window t now [] a h = refl
prune_past window t now (e ∷ es) a h = ground (arith, prune_past window t now es a.1 h)

prune_append :
    (window t now : ℕ) (b : Bucket)
    → now ≤ t + window
    → prune window now (b ++ t ∷ []) ≡ prune window now b ++ t ∷ []
unfolding prune
prune_append window t now [] h = ground arith
prune_append window t now (e ∷ es) h = ground (arith, prune_append window t now es h)

All-prune :
    (window t now : ℕ) (b : Bucket) → All (λ e. e ≤ t) b → All (λ e. e ≤ t) (prune window now b)
unfolding prune
All-prune window t now [] a = tt
All-prune window t now (e ∷ es) a = ground (arith, All-prune window t now es a.1)

All-le_mono : (t u : ℕ) (b : Bucket) → t ≤ u → All (λ e. e ≤ t) b → All (λ e. e ≤ u) b
All-le_mono t u [] h a = tt
All-le_mono t u (e ∷ es) h a = (omega arith, All-le_mono t u es h a.1)

All-le-append : (t : ℕ) (b : Bucket) → All (λ e. e ≤ t) b → All (λ e. e ≤ t) (b ++ t ∷ [])
All-le-append t [] a = (omega arith, tt)
All-le-append t (e ∷ es) a = (a.0, All-le-append t es a.1)

-- The table says of every key what the history says, from `clock` on.
pub record Agrees (window clock : ℕ) (m : Buckets) (h : Log) : Type 0 where
  pub count :
      (k : String) (now : ℕ)
      → clock ≤ now
      → length (prune window now (bucket_of k m)) ≡ recent window now k h
  pub past : (k : String) → All (λ e. e ≤ clock) (bucket_of k m)

pruned-count :
    (window t now : ℕ) (b : Bucket)
    → t ≤ now
    → All (λ e. e ≤ t) b
    → length (prune window now (prune window t b ++ t ∷ [])) ≡ (
        if leb now (t + window)
        then suc (length (prune window now b))
        else length (prune window now b))
pruned-count window t now b h a = elim (Bool-cases (leb now (t + window))) [
  | inl e ↦ rw e (
      omega (
        arith,
        ap length (prune_append window t now (prune window t b) (leb→le _ _ e)),
        length-append (prune window now (prune window t b)) (t ∷ []),
        ap length (prune-prune window t now b h),
      ))
  | inr e ↦ rw e (
      omega (
        arith,
        ap length (
            prune_past window t now (prune window t b ++ t ∷ [])
              (All-le-append t (prune window t b) (All-prune window t t b a)) (ground arith)),
        ap length (prune_past window t now b a (ground arith)),
      ))
]

module _ (window clock : ℕ) (m : Buckets) (h : Log) (k : String) (t : ℕ)
    (s : Agrees window clock m h) (le : clock ≤ t) where
  kept_past : (j : String) → All (λ e. e ≤ t) (bucket_of j m)
  kept_past j = All-le_mono clock t (bucket_of j m) le (s.past j)

  pub refuse-Agrees : Agrees window t (put k (prune window t (bucket_of k m)) m) h
  refuse-Agrees = record {
    count = λ j now q. rw (bucket_of-put k j _ m) (
        ground (
          arith,
          eq_iff k j,
          s.count j now (omega arith),
          ap length (prune-prune window t now (bucket_of k m) q),
        ));
    past = λ j.
        rw (bucket_of-put k j _ m)
          (ground (arith, All-prune window t t (bucket_of k m) (kept_past k), kept_past j));
  }

  pub allow-Agrees :
      Agrees window t (put k (prune window t (bucket_of k m) ++ t ∷ []) m) ((k, t) ∷ h)
  unfolding recent
  allow-Agrees = record {
    count = λ j now q. rw (bucket_of-put k j _ m) (
        ground (
          arith,
          eq_iff k j,
          s.count j now (omega arith),
          pruned-count window t now (bucket_of k m) q (kept_past k),
        ));
    past = λ j. rw (bucket_of-put k j _ m) (
        ground (
          arith,
          All-le-append t (prune window t (bucket_of k m))
              (All-prune window t t (bucket_of k m) (kept_past k)),
          kept_past j,
        ));
  }
