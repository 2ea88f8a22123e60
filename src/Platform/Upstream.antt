-- ===== src/Platform/Upstream.antt =====
-- app/integrations/_http/_resilient.py: `request_json`, the one way to an upstream catalog, behind
-- the breaker of its integration.
-- httpx is a parameter: `raises status` is whether `raise_for_status` raises, and a reply is what
-- `client.request` and `resp.json` came to.
pub mod Accounting
mod Tests
use loupe_backend.Prelude.{
  ℕ, String, Bool, false, ◌&&◌, ◌||◌, Option, none, some, List, [], ◌∷◌, ◌==◌, if◌then◌else◌, put,
}
use loupe_backend.Platform.Breaker.{
  Breaker, Admission, Outcome, refused, probing, calling, succeeded, failed, Registry, enter, leave,
  get_breaker,
}

-- The request failed on its way, or came back with a status and a body, which is JSON or is not.
pub data Reply (J : Type 0) : Type 0 where
  unreachable : Reply J
  response : ℕ → Option J → Reply J

-- CircuitOpenError with its `retry_after_s`, another exception, or one of the three values.
pub data Fetched (J : Type 0) : Type 0 where
  blocked : ℕ → Fetched J
  raised : Fetched J
  not_found : Fetched J
  no_data : Fetched J
  json : J → Fetched J

unfoldable pub contains : ℕ → List ℕ → Bool
contains s [] = false
contains s (t ∷ ts) = s == t || contains s ts

module _ {J : Type 0} (raises : ℕ → Bool) (not_found_ok : Bool) (extra_ok_statuses : List ℕ) where
  parsed : Option J → Fetched J × Outcome
  parsed (some j) = (json j, succeeded)
  parsed none = (raised, failed)

  -- The guarded block.
  pub judge : Reply J → Fetched J × Outcome
  unfolding parsed
  judge unreachable = (raised, failed)
  judge (response status body) =
      if not_found_ok && status == 404
      then (not_found, succeeded)
      else if contains status extra_ok_statuses
      then (no_data, succeeded)
      else if raises status
      then (raised, failed)
      else parsed body

  abbrev guarded : Admission → Breaker → Reply J → ℕ → Fetched J × Breaker
  guarded (refused r) b reply later = (blocked r, b)
  guarded probing b reply later = let (v, o) = judge reply in (v, leave b probing o later)
  guarded calling b reply later = let (v, o) = judge reply in (v, leave b calling o later)

  -- Asked at `now`, answered at `later`.
  pub attempt : Breaker → ℕ → Reply J → ℕ → Fetched J × Breaker
  attempt b now reply later = let (a, b') = enter b now in guarded a b' reply later

  pub request_json : Registry → String → ℕ → ℕ → ℕ → Reply J → ℕ → Fetched J × Registry
  unfolding attempt
  request_json rs integration threshold cooldown now reply later =
      let (b, rs') = get_breaker rs integration threshold cooldown in
      let (v, b') = attempt b now reply later in (v, put integration b' rs')
