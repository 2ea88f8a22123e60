-- ===== src/Platform/RateLimit.antt =====
-- app/platform/rate_limit.py: the sliding window of one limiter, and the key of a client.
-- `time.monotonic()` and `window_s` are counts of clock ticks; `e < now - window_s` is written
-- `e + window_s < now`, since it may be below 0.
pub mod Sliding
pub mod Rate
pub mod Memory
pub mod Client
mod Tests
use loupe_backend.Prelude.Text.{Text, split, strip}
use loupe_backend.Prelude.{
  ℕ, zero, suc, ◌+◌, ◌-◌, String, Bool, true, false, ◌&&◌, Option, none, some, List, [], ◌∷◌, ◌++◌,
  ltb, leb, if◌then◌else◌, length, take, get, put, pop,
}

-- The hits of one key, oldest first.
abbrev pub Bucket : Type 0
Bucket = List ℕ

abbrev pub Buckets : Type 0
Buckets = List (String × Bucket)

pub record SlidingWindow : Type 0 where
  pub limit : ℕ
  pub window : ℕ
  pub buckets : Buckets

-- `kv[1][-1] if kv[1] else 0`
unfoldable pub newest : Bucket → ℕ
newest [] = 0
newest (t ∷ []) = t
newest (t ∷ u ∷ ts) = newest (u ∷ ts)

-- `sorted(items, key=newest)` is stable: a tie keeps its order.
unfoldable pub insert : String × Bucket → Buckets → Buckets
insert x [] = x ∷ []
insert x (y ∷ ys) = if leb (newest x.1) (newest y.1) then x ∷ y ∷ ys else y ∷ insert x ys

unfoldable pub sort_by_newest : Buckets → Buckets
unfolding insert
sort_by_newest [] = []
sort_by_newest (x ∷ xs) = insert x (sort_by_newest xs)

unfoldable pub pop_all : Buckets → Buckets → Buckets
pop_all [] m = m
pop_all ((k, b) ∷ victims) m = pop_all victims (pop k m)

abbrev pub max_tracked : ℕ
max_tracked = 10000

abbrev pub eviction_batch : ℕ
eviction_batch = 1000

-- The eviction of `hit`, for a table of `most` keys and a batch of `n` victims.
unfoldable pub evict : ℕ → ℕ → Buckets → Buckets
evict most n m = if ltb most (length m) then pop_all (take n (sort_by_newest m)) m else m

-- `while bucket and bucket[0] < cutoff: bucket.popleft()`
unfoldable pub prune : ℕ → ℕ → Bucket → Bucket
prune window now [] = []
prune window now (e ∷ es) =
    let rest = prune window now es in if ltb (e + window) now then rest else e ∷ es

abbrev pub or_empty : Option Bucket → Bucket
or_empty none = []
or_empty (some b) = b

unfoldable pub hit_within : ℕ → ℕ → SlidingWindow → String → ℕ → Bool × SlidingWindow
hit_within most n w key now =
    let m = evict most n w.buckets in
    let bucket = prune w.window now (or_empty (get key m)) in
    if leb w.limit (length bucket)
    then (false, record w { buckets = put key bucket m })
    else (true, record w { buckets = put key (bucket ++ now ∷ []) m })

unfoldable pub hit : SlidingWindow → String → ℕ → Bool × SlidingWindow
unfolding hit_within
hit = hit_within max_tracked eviction_batch

-- `reset_rate_limits`, for one of the registered windows.
unfoldable pub reset : SlidingWindow → SlidingWindow
reset w = record w { buckets = [] }

-- What `_client_key` reads of a request: the X-Forwarded-For header and the socket's host.
pub record Request : Type 0 where
  pub forwarded_for : Option Text
  pub host : Option Text

-- `[p.strip() for p in xff.split(",") if p.strip()]`
unfoldable pub entries : List Text → List Text
entries [] = []
entries (p ∷ ps) = elim (strip p) [ [] ↦ entries ps | c ∷ cs ↦ (c ∷ cs) ∷ entries ps ]

unfoldable pub nth : ℕ → List Text → Option Text
nth n [] = none
nth zero (p ∷ ps) = some p
nth (suc n) (p ∷ ps) = nth n ps

-- `parts[-hops]` if there are so many, else `parts[0]`; `none` where `parts` is empty.
unfoldable pub pick : ℕ → List Text → Option Text
unfolding nth
pick hops parts =
    if ltb 0 hops && leb hops (length parts) then nth (length parts - hops) parts else nth 0 parts

abbrev pub unknown : Text
unknown = b'u' ∷ b'n' ∷ b'k' ∷ b'n' ∷ b'o' ∷ b'w' ∷ b'n' ∷ []

-- `(client.host if client else None) or "unknown"`
unfoldable pub or_unknown : Option Text → Text
or_unknown none = unknown
or_unknown (some []) = unknown
or_unknown (some (c ∷ cs)) = c ∷ cs

abbrev or_host : Option Text → Option Text → Text
or_host none host = or_unknown host
or_host (some p) host = p

unfoldable pub forwarded : ℕ → Option Text → Option Text
unfolding pick entries
forwarded hops none = none
forwarded hops (some xff) = pick hops (entries (split b',' xff))

-- `_client_key`, with the setting `rate_limit_trusted_proxy_hops`, 0 where it is not positive.
unfoldable pub client_key : ℕ → Request → Text
unfolding forwarded
client_key hops r = or_host (forwarded hops r.forwarded_for) r.host
