-- ===== src/Platform/Swr.antt =====
-- The stale-while-revalidate cache (app/platform/cache_swr.py), for one key. A refresh is split at its
-- call of the upstream into a begin and an end, so that refreshes overlap. Times are in milliseconds;
-- Redis and the second level keep what they are given until it expires.
mod Runners
pub mod Flight
pub mod Serve
pub mod Wait
mod Tests
use loupe_backend.Prelude.{
  if_elim, ℕ, zero, suc, ◌+◌, ◌-◌, ◌*◌, ◌/◌, ◌%◌, ◌≤◌, ◌<◌, min, max, String, ◌≡◌, refl, sym, ap,
  subst, ◌∙◌, ◌≢◌, ◌↔◌, ◌⊎◌, inl, inr, Bool, true, false, ◌&&◌, ◌||◌, not, Option, none, some, List,
  [], ◌∷◌, ◌++◌, map, arith, str_eq, eq_iff, dec_lt, ℕ_discrete, ltb, leb, ◌==◌, if◌then◌else◌,
  is_some, ltb→lt, lt→ltb, leb→le, ==_iff, Bool-cases, Option-cases, length, take, drop,
  length-append, length-take, length-drop, All, get, put, pop, get-put, get-pop,
}

-- A value that the upstream gives, with `none` for Python's None.
abbrev pub Value : Type 0 → Type 0
Value V = Option V

pub record Envelope (V : Type 0) : Type 0 where
  pub data_ : Value V
  pub fresh_until : ℕ

-- What is read from a store: text that is not an envelope, or an envelope.
pub data Raw (V : Type 0) : Type 0 where
  garbled : Raw V
  envelope : Envelope V → Raw V

pub record Entry (V : Type 0) : Type 0 where
  pub raw : Raw V
  pub expires : ℕ

-- The two levels, and when the lock expires, if it is taken.
pub record Cache (V : Type 0) : Type 0 where
  pub l1 : Option (Entry V)
  pub l2 : Option (Entry V)
  pub lock : Option ℕ

pub record Ttls : Type 0 where
  pub fresh_ttl : ℕ
  pub stale_ttl : ℕ
  pub lock_ttl : ℕ

-- A refresh that runs: whether it took the lock, and when it began.
pub record Runner : Type 0 where
  pub have_lock : Bool
  pub since : ℕ

-- What a request finds: a value that is fresh, one that is stale, so that a refresh is started
-- behind it, or none.
pub data Found (V : Type 0) : Type 0 where
  fresh stale : V → Found V
  missing : Found V

-- What one poll of a waiting request sees: the time, the stored text and the lock.
pub record Poll (V : Type 0) : Type 0 where
  pub time : ℕ
  pub seen : Option (Raw V)
  pub held : Bool

-- How a wait ends: with a value, or with a refresh of one's own.
pub data Waited (V : Type 0) : Type 0 where
  out_of_fuel last_resort : Waited V
  served : V → Waited V

-- The refreshes of the whole fleet.
pub record Fleet (V : Type 0) : Type 0 where
  pub cache : Cache V
  pub running : List Runner

-- A refresh begins on a cold miss, with or without the demand for the lock; one is spawned behind a
-- stale value, under the caller's gate, if there is one; or the n-th one that runs ends.
pub data Event (V : Type 0) : Type 0 where
  beginning : Bool → ℕ → Event V
  spawning : Option Bool → ℕ → Event V
  ending : ℕ → Option (Value V) → ℕ → Event V

abbrev pub take_out : ℕ → List Runner → Option Runner × List Runner
take_out n [] = (none, [])
take_out zero (r ∷ rs) = (some r, rs)
take_out (suc n) (r ∷ rs) = let (found, rest) = take_out n rs in (found, r ∷ rest)

abbrev pub add_runner : Option Runner → List Runner → List Runner
add_runner none rs = rs
add_runner (some r) rs = r ∷ rs

-- `should_refresh is not None and not await should_refresh()`
abbrev pub is_vetoed : Option Bool → Bool
is_vetoed none = false
is_vetoed (some ok) = not ok

-- Whether a lock with this expiry is there.
abbrev pub is_held : ℕ → Option ℕ → Bool
is_held now none = false
is_held now (some until) = ltb now until

module _ {V : Type 0} where
  abbrev pub live : ℕ → Option (Entry V) → Option (Raw V)
  live now none = none
  live now (some e) = if ltb now e.expires then some e.raw else none

  abbrev or_raw : Option (Raw V) → Option (Raw V) → Option (Raw V)
  or_raw none r = r
  or_raw (some q) r = some q

  -- `_safe_get`
  unfoldable pub safe_get : ℕ → Cache V → Option (Raw V)
  safe_get now c = or_raw (live now c.l1) (live now c.l2)

  -- `_store`
  unfoldable pub store : Ttls → ℕ → Value V → Cache V → Cache V
  store t now v c =
      let e : Entry V = record {
        raw = envelope (record { data_ = v; fresh_until = now + t.fresh_ttl });
        expires = now + t.stale_ttl;
      } in
      record c { l1 = some e; l2 = some e }

  -- `_lock_held`
  abbrev pub lock_held : ℕ → Cache V → Bool
  lock_held now c = is_held now c.lock

  -- `_acquire_lock`
  unfoldable pub acquire_lock : Ttls → ℕ → Cache V → Bool × Cache V
  acquire_lock t now c =
      if lock_held now c then (false, c) else (true, record c { lock = some (now + t.lock_ttl) })

  -- `_release_lock`
  abbrev pub release_lock : Bool → Cache V → Cache V
  release_lock true c = record c { lock = none }
  release_lock false c = c

  abbrev pub begun : Bool → ℕ → Bool × Cache V → Option Runner × Cache V
  begun require_lock now (have, c) =
      if not have && require_lock
      then (none, c)
      else (some (record { have_lock = have; since = now }), c)

  -- `_do_refresh`, up to the call of the upstream.
  unfoldable pub begin_refresh : Ttls → Bool → ℕ → Cache V → Option Runner × Cache V
  unfolding acquire_lock
  begin_refresh t require_lock now c = begun require_lock now (acquire_lock t now c)

  -- `_do_refresh`, from the upstream's value on, which is `none` when the call has failed.
  unfoldable pub end_refresh : Ttls → Runner → Option (Value V) → ℕ → Cache V → Value V × Cache V
  unfolding store
  end_refresh t r none now c = (none, release_lock r.have_lock c)
  end_refresh t r (some v) now c = (v, release_lock r.have_lock (store t now v c))

  abbrev judge_data : ℕ → ℕ → Value V → Found V
  judge_data now until none = missing
  judge_data now until (some v) = if ltb now until then fresh v else stale v

  abbrev judge_raw : ℕ → Option (Raw V) → Found V
  judge_raw now none = missing
  judge_raw now (some garbled) = missing
  judge_raw now (some (envelope e)) = judge_data now e.fresh_until e.data_

  -- `swr_get_or_refresh`, up to the cold miss.
  unfoldable pub look_up : ℕ → Cache V → Found V
  unfolding safe_get
  look_up now c = judge_raw now (safe_get now c)

  abbrev pub poll_data : Value V → Bool → Waited V → Waited V
  poll_data (some v) held rest = served v
  poll_data none held rest = if held then rest else last_resort

  abbrev pub poll_raw : Option (Raw V) → Bool → Waited V → Waited V
  poll_raw none held rest = if held then rest else last_resort
  poll_raw (some garbled) held rest = last_resort
  poll_raw (some (envelope e)) held rest = poll_data e.data_ held rest

  -- The loop of a cold miss, from the i-th poll on.
  unfoldable pub wait : (ℕ → Poll V) → ℕ → ℕ → ℕ → Waited V
  wait poll deadline i zero = out_of_fuel
  wait poll deadline i (suc fuel) =
      let rest = wait poll deadline (suc i) fuel in
      let p = poll i in if ltb p.time deadline then poll_raw p.seen p.held rest else last_resort

  abbrev pub finish : Ttls → Option Runner → Option (Value V) → ℕ → Cache V → Cache V
  finish t none result now c = c
  finish t (some r) result now c = (end_refresh t r result now c).1

  abbrev pub begin_on : Ttls → Bool → ℕ → Fleet V → Fleet V
  begin_on t require_lock now fl =
      let (r, c) = begin_refresh t require_lock now fl.cache in
      record { cache = c; running = add_runner r fl.running }

  unfoldable pub step : Ttls → Fleet V → Event V → Fleet V
  unfolding begin_refresh end_refresh
  step t fl (beginning require_lock now) = begin_on t require_lock now fl
  step t fl (spawning gate now) = if is_vetoed gate then fl else begin_on t true now fl
  step t fl (ending n result now) =
      let (r, rest) = take_out n fl.running in
      record { cache = finish t r result now fl.cache; running = rest }

  unfoldable pub run : Ttls → Fleet V → List (Event V) → Fleet V
  unfolding step
  run t fl [] = fl
  run t fl (e ∷ es) = run t (step t fl e) es
