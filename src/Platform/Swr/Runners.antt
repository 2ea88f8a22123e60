-- ===== src/Platform/Swr/Runners.antt =====
-- The refreshes of one key that run at once, and the lock (cache_swr.py).
use loupe_backend.Prelude.{
  ℕ, zero, suc, ◌+◌, ◌≤◌, ◌≡◌, refl, Bool, true, false, ◌&&◌, ◌||◌, not, Option, none, some, List,
  [], ◌∷◌, arith, ltb, ◌==◌, if◌then◌else◌, length,
}
use loupe_backend.Platform.Swr.{Ttls, Runner, take_out, is_held}

-- How many of the refreshes have taken the lock.
unfoldable pub holders : List Runner → ℕ
holders [] = 0
holders (r ∷ rs) = let rest = holders rs in if r.have_lock then suc rest else rest

-- How many run without it.
unfoldable pub unlocked : List Runner → ℕ
unlocked [] = 0
unlocked (r ∷ rs) = let rest = unlocked rs in if r.have_lock then rest else suc rest

abbrev pub one_if : Bool → ℕ
one_if b = if b then 1 else 0

pub holders-unlocked : (rs : List Runner) → length rs ≡ holders rs + unlocked rs
unfolding holders unlocked
holders-unlocked [] = refl
holders-unlocked (r ∷ rs) = ground (arith, holders-unlocked rs)

pub unlocked-take_out : (n : ℕ) (rs : List Runner) → unlocked (take_out n rs).1 ≤ unlocked rs
unfolding unlocked
unlocked-take_out n [] = omega arith
unlocked-take_out zero (r ∷ rs) = ground arith
unlocked-take_out (suc n) (r ∷ rs) = ground (arith, unlocked-take_out n rs)

-- The lock's expiry is that of a refresh that has taken it.
abbrev is_lock_of : Ttls → Runner → Option ℕ → Bool
is_lock_of t r none = not r.have_lock
is_lock_of t r (some until) = not r.have_lock || until == r.since + t.lock_ttl

unfoldable pub all_locked : Ttls → List Runner → Option ℕ → Bool
all_locked t [] lock = true
all_locked t (r ∷ rs) lock = is_lock_of t r lock && all_locked t rs lock

-- No refresh that holds the lock has outlived it at this time.
unfoldable pub in_time : Ttls → List Runner → ℕ → Bool
in_time t [] now = true
in_time t (r ∷ rs) now = (not r.have_lock || ltb now (r.since + t.lock_ttl)) && in_time t rs now

-- A lock that is free has no holder that is in time.
pub holders_free :
    (t : Ttls) (rs : List Runner) (now : ℕ) (lock : Option ℕ)
    → all_locked t rs lock ≡ true
    → in_time t rs now ≡ true
    → is_held now lock ≡ false
    → holders rs ≡ 0
unfolding holders all_locked in_time
holders_free t [] now lock locked timely free = refl
holders_free t (r ∷ rs) now none locked timely free =
    ground (arith, locked, timely, free, holders_free t rs now none)
holders_free t (r ∷ rs) now (some until) locked timely free =
    ground (arith, locked, timely, free, holders_free t rs now (some until))

pub all_locked_free :
    (t : Ttls) (rs : List Runner) (lock : Option ℕ) → holders rs ≡ 0 → all_locked t rs lock ≡ true
unfolding holders all_locked
all_locked_free t [] lock free = refl
all_locked_free t (r ∷ rs) none free = ground (arith, free, all_locked_free t rs none)
all_locked_free t (r ∷ rs) (some until) free =
    ground (arith, free, all_locked_free t rs (some until))

-- A refresh without the lock changes nothing.
pub all_locked_unlocked :
    (t : Ttls) (now : ℕ) (rs : List Runner) (lock : Option ℕ)
    → all_locked t rs lock ≡ true
    → all_locked t (record { have_lock = false; since = now } ∷ rs) lock ≡ true
unfolding all_locked
all_locked_unlocked t now rs none ok = ok
all_locked_unlocked t now rs (some until) ok = ok

abbrev pub taken : Option Runner → ℕ
taken none = 0
taken (some r) = one_if r.have_lock

pub holders-take_out :
    (n : ℕ) (rs : List Runner) → taken (take_out n rs).0 + holders (take_out n rs).1 ≡ holders rs
unfolding holders
holders-take_out n [] = refl
holders-take_out zero (r ∷ rs) = ground arith
holders-take_out (suc n) (r ∷ rs) = ground (arith, holders-take_out n rs)

pub all_locked-take_out :
    (t : Ttls) (n : ℕ) (rs : List Runner) (lock : Option ℕ)
    → all_locked t rs lock ≡ true
    → all_locked t (take_out n rs).1 lock ≡ true
unfolding all_locked
all_locked-take_out t n [] lock ok = refl
all_locked-take_out t zero (r ∷ rs) lock ok = ground (arith, ok)
all_locked-take_out t (suc n) (r ∷ rs) lock ok = ground (arith, ok, all_locked-take_out t n rs lock)
