-- ===== src/Platform/RateLimit/Memory.antt =====
-- The table of a limiter stays small, whoever calls (rate_limit.py, `hit`).
use loupe_backend.Prelude.{
  ℕ, suc, ◌≤◌, ◌<◌, String, ◌≡◌, refl, true, [], ◌∷◌, ◌++◌, arith, eq_iff, is_some, length, take,
  All, get, put, pop,
}
use loupe_backend.Platform.RateLimit.{
  Bucket, Buckets, SlidingWindow, insert, sort_by_newest, pop_all, evict, prune, or_empty,
  hit_within, hit, max_tracked,
}
use loupe_backend.Platform.RateLimit.Sliding.{Log}

length-put-le : (k : String) (b : Bucket) (m : Buckets) → length (put k b m) ≤ suc (length m)
unfolding put
length-put-le k b [] = omega arith
length-put-le k b ((j, c) ∷ m) = ground (arith, length-put-le k b m)

length-pop-le : (k : String) (m : Buckets) → length (pop k m) ≤ length m
unfolding pop
length-pop-le k [] = omega arith
length-pop-le k ((j, c) ∷ m) = ground (arith, length-pop-le k m)

length-pop-lt : (k : String) (m : Buckets) → is_some (get k m) ≡ true → length (pop k m) < length m
unfolding pop get
length-pop-lt k [] h = cc
length-pop-lt k ((j, c) ∷ m) h = ground (arith, length-pop-le k m, length-pop-lt k m)

length-pop_all-le : (vs m : Buckets) → length (pop_all vs m) ≤ length m
unfolding pop_all
length-pop_all-le [] m = omega arith
length-pop_all-le ((k, b) ∷ vs) m = omega (arith, length-pop_all-le vs (pop k m), length-pop-le k m)

-- Whether a key of the table.
abbrev Has : Buckets → (String × Bucket) → Type 0
Has m e = is_some (get e.0 m) ≡ true

Has-cons : (m l : Buckets) (x : String × Bucket) → All (Has m) l → All (Has (x ∷ m)) l
unfolding get
Has-cons m [] x a = tt
Has-cons m (e ∷ l) (j, c) a = (ground (arith, a.0), Has-cons m l (j, c) a.1)

Has-self : (m : Buckets) → All (Has m) m
unfolding get
Has-self [] = tt
Has-self ((j, c) ∷ m) = (ground (arith, (eq_iff j j).1 refl), Has-cons m m (j, c) (Has-self m))

Has-insert :
    (m l : Buckets) (x : String × Bucket) → Has m x → All (Has m) l → All (Has m) (insert x l)
unfolding insert
Has-insert m [] x h a = (h, tt)
Has-insert m (y ∷ l) x h a = ground (arith, Has-insert m l x h a.1)

Has-sort : (m l : Buckets) → All (Has m) l → All (Has m) (sort_by_newest l)
unfolding sort_by_newest
Has-sort m [] a = tt
Has-sort m (x ∷ l) a = Has-insert m (sort_by_newest l) x a.0 (Has-sort m l a.1)

length-insert : (x : String × Bucket) (l : Buckets) → length (insert x l) ≡ suc (length l)
unfolding insert
length-insert x [] = refl
length-insert x (y ∷ l) = ground (arith, length-insert x l)

length-sort : (l : Buckets) → length (sort_by_newest l) ≡ length l
unfolding sort_by_newest
length-sort [] = refl
length-sort (x ∷ l) = omega (arith, length-insert x (sort_by_newest l), length-sort l)

pop_all-lt :
    (n : ℕ) (l m : Buckets)
    → 0 < length l
    → All (Has m) l
    → length (pop_all (take (suc n) l) m) < length m
unfolding pop_all
pop_all-lt n [] m p a = absurd (omega arith)
pop_all-lt n ((k, b) ∷ l) m p a =
    omega (arith, length-pop_all-le (take n l) (pop k m), length-pop-lt k m a.0)

-- An eviction is due above `most` keys, and then at least one of them goes.
length-evict :
    (most n : ℕ) (m : Buckets) → length m ≤ suc most → length (evict most (suc n) m) ≤ most
unfolding evict
length-evict most n m h =
    ground (arith, length-sort m, pop_all-lt n (sort_by_newest m) m, Has-sort m m (Has-self m))

length-hit_within :
    (most n : ℕ) (w : SlidingWindow) (k : String) (t : ℕ)
    → length w.buckets ≤ suc most
    → length (hit_within most (suc n) w k t).1.buckets ≤ suc most
unfolding hit_within
length-hit_within most n w k t h =
    let m = evict most (suc n) w.buckets in
    let bucket = prune w.window t (or_empty (get k m)) in
    ground (
      arith,
      length-evict most n w.buckets h,
      length-put-le k bucket m,
      length-put-le k (bucket ++ t ∷ []) m,
    )

-- The table after a list of hits.
unfoldable pub run : SlidingWindow → Log → SlidingWindow
run w [] = w
run w ((k, t) ∷ es) = run (hit w k t).1 es

run-bounded :
    (w : SlidingWindow) (es : Log)
    → length w.buckets ≤ suc max_tracked
    → length (run w es).buckets ≤ suc max_tracked
unfolding run hit
run-bounded w [] h = h
run-bounded w ((k, t) ∷ es) h =
    run-bounded (hit w k t).1 es (length-hit_within max_tracked 999 w k t h)

-- Whoever calls, with whatever keys and at whatever times, the table of a new limiter never tracks
-- more than 10,001 keys.
pub length-run :
    (limit window : ℕ) (es : Log)
    → length (run (record { limit = limit; window = window; buckets = [] }) es).buckets ≤ 10001
length-run limit window es =
    run-bounded (record { limit = limit; window = window; buckets = [] }) es (omega arith)
