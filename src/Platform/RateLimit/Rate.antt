-- ===== src/Platform/RateLimit/Rate.antt =====
-- The limiter implements its specification, and holds every client to `limit` hits in a window
-- (rate_limit.py, `hit`).
use loupe_backend.Prelude.{
  ℕ, suc, ◌+◌, ◌≤◌, String, ◌≡◌, refl, ◌∙◌, inl, inr, ◌&&◌, [], ◌∷◌, arith, str_eq, eq_iff, ltb,
  leb, if◌then◌else◌, Bool-cases, length, get,
}
use loupe_backend.Platform.RateLimit.{
  Buckets, SlidingWindow, max_tracked, eviction_batch, evict, hit_within, prune,
}
use loupe_backend.Platform.RateLimit.Sliding.{
  Log, recent, spec_log, log_within, Ordered, Uncrowded, bucket_of, Agrees, refuse-Agrees,
  allow-Agrees,
}

evict_small : (most n : ℕ) (m : Buckets) → length m ≤ most → evict most n m ≡ m
unfolding evict
evict_small most n m h = ground arith

Agrees-empty : (window clock : ℕ) → Agrees window clock [] []
unfolding bucket_of prune recent get
Agrees-empty window clock = record { count = λ k now h. refl; past = λ k. tt }

-- One hit, while the table has room: the decision is the specification's, and so is what is kept.
hit-Agrees :
    (most n clock : ℕ) (w : SlidingWindow) (h : Log) (k : String) (t : ℕ)
    → length w.buckets ≤ most
    → Agrees w.window clock w.buckets h
    → clock ≤ t
    → let (ok, w') = hit_within most n w k t in
      (ok ≡ ltb (recent w.window t k h) w.limit)
      × Agrees w.window t w'.buckets (if ok then (k, t) ∷ h else h)
      × (w'.limit ≡ w.limit)
      × (w'.window ≡ w.window)
unfolding hit_within bucket_of
hit-Agrees most n clock w h k t room s le =
    rw (evict_small most n w.buckets room)
      (elim (Bool-cases (leb w.limit (length (prune w.window t (bucket_of k w.buckets))))) [
        | inl full ↦ rw (full) (
          ground (arith, s.count k t le),
          refuse-Agrees w.window clock w.buckets h k t s le,
          refl,
          refl,
        )
        | inr free ↦ rw (free) (
          ground (arith, s.count k t le),
          allow-Agrees w.window clock w.buckets h k t s le,
          refl,
          refl,
        )
      ])

log_within-eq-spec_log :
    (most n clock : ℕ) (w : SlidingWindow) (h es : Log)
    → Agrees w.window clock w.buckets h
    → Ordered clock es
    → Uncrowded most n w es
    → log_within most n w h es ≡ spec_log w.limit w.window h es
unfolding log_within spec_log
log_within-eq-spec_log most n clock w h [] s o u = refl
log_within-eq-spec_log most n clock w h ((k, t) ∷ es) s o u =
    let (same, next, lim, win) = hit-Agrees most n clock w h k t u.0 s o.0 in
    let w' = (hit_within most n w k t).1 in
    let ok = (hit_within most n w k t).0 in
    log_within-eq-spec_log most n t w' (if ok then (k, t) ∷ h else h) es (rw win next) o.1 u.1
    ∙ rw (lim, win, same) refl

-- The limiter is its specification: from an empty table, on hits whose clock does not run backwards
-- and while no eviction is due, it allows a hit exactly if fewer than `limit` of the allowed hits of
-- its key lie at most `window` before it.
pub hit-eq-spec :
    (limit window clock : ℕ) (es : Log)
    → let w : SlidingWindow = record { limit = limit; window = window; buckets = [] } in
      Ordered clock es
      → Uncrowded max_tracked eviction_batch w es
      → log_within max_tracked eviction_batch w [] es ≡ spec_log limit window [] es
hit-eq-spec limit window clock es o u =
    log_within-eq-spec_log max_tracked eviction_batch clock _ [] es (Agrees-empty window clock) o u

-- The hits of a key in the `window` ticks from `from` on.
unfoldable pub within : ℕ → ℕ → String → Log → ℕ
within window from k [] = 0
within window from k ((j, t) ∷ h) =
    if str_eq j k && (leb from t && leb t (from + window))
    then suc (within window from k h)
    else within window from k h

within-le-recent :
    (window from t : ℕ) (k : String) (h : Log)
    → t ≤ from + window
    → within window from k h ≤ recent window t k h
unfolding within recent
within-le-recent window from t k [] le = omega arith
within-le-recent window from t k ((j, u) ∷ h) le =
    ground (arith, within-le-recent window from t k h le)

spec_log-bounded :
    (limit window from : ℕ) (k : String) (h es : Log)
    → within window from k h ≤ limit
    → within window from k (spec_log limit window h es) ≤ limit
unfolding spec_log
spec_log-bounded limit window from k h [] b = b
spec_log-bounded limit window from k h ((j, t) ∷ es) b =
    spec_log-bounded limit window from k (if ltb (recent window t j h) limit then (j, t) ∷ h else h)
      es (unfold within in ground (arith, eq_iff j k, within-le-recent window from t k h))

-- From an empty table, no key is allowed more than `limit` hits in any span of `window` ticks,
-- wherever the span begins, as long as the clock does not run backwards and no eviction is due.
pub hit_rate :
    (limit window clock from : ℕ) (k : String) (es : Log)
    → let w : SlidingWindow = record { limit = limit; window = window; buckets = [] } in
      Ordered clock es
      → Uncrowded max_tracked eviction_batch w es
      → within window from k (log_within max_tracked eviction_batch w [] es) ≤ limit
hit_rate limit window clock from k es o u =
    rw (hit-eq-spec limit window clock es o u)
      (spec_log-bounded limit window from k [] es (unfold within in omega arith))
