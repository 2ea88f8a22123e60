-- ===== src/Social/Session.antt =====
-- Sequences of calls on the follow graph (graph.py): each call is one request that commits before the
-- next one reads.
pub mod Privacy
mod Tests
use loupe_backend.Prelude.{ℕ, ◌-◌, String, List, [], ◌∷◌}
use loupe_backend.Social.Graph.{Db, follow, unfollow, remove_follower}
use loupe_backend.Social.Graph.Rows.{IsSound}
use loupe_backend.Social.Graph.Follow.{follow-IsSound, unfollow-IsSound, remove_follower-IsSound}
use loupe_backend.Social.Inbox.{accept_request, decline_request, incoming_requests}
use loupe_backend.Social.Inbox.Sweep.{apply_pending_requests-IsSound}
use loupe_backend.Social.Inbox.Answer.{accept_request-IsSound, decline_request-IsSound}

-- Who calls, and with what.
pub data Call : Type 0 where
  follows unfollows removes : ℕ → String → Call
  accepts declines : ℕ → ℕ → Call
  opens_inbox : ℕ → Call

module _ (normal : String → String) where
  unfoldable pub step : Db → Call → Db
  unfolding incoming_requests
  step db (follows viewer username) = (follow normal db viewer username).db
  step db (unfollows viewer username) = (unfollow normal db viewer username).db
  step db (removes me username) = (remove_follower normal db me username).db
  step db (accepts me id) = (accept_request db me id).db
  step db (declines me id) = (decline_request db me id).db
  step db (opens_inbox me) = (incoming_requests db me).0

  unfoldable pub run : Db → List Call → Db
  unfolding step
  run db [] = db
  run db (c ∷ cs) = run (step db c) cs

  step-IsSound : (db : Db) (c : Call) → IsSound db → IsSound (step db c)
  unfolding step
  step-IsSound db (follows viewer username) s = follow-IsSound normal db viewer username s
  step-IsSound db (unfollows viewer username) s = unfollow-IsSound normal db viewer username s
  step-IsSound db (removes me username) s = remove_follower-IsSound normal db me username s
  step-IsSound db (accepts me id) s = accept_request-IsSound db me id s
  step-IsSound db (declines me id) s = decline_request-IsSound db me id s
  step-IsSound db (opens_inbox me) s = apply_pending_requests-IsSound db me s

  -- From a sound graph every sequence of calls, whether they succeed or fail, leads to a sound graph:
  -- nobody follows or asks to follow themselves, no edge or request stands twice, nobody asks for what
  -- they have, and both ends of every edge and request have claimed a handle.
  pub run-IsSound : (db : Db) (cs : List Call) → IsSound db → IsSound (run db cs)
  unfolding run
  run-IsSound db [] s = s
  run-IsSound db (c ∷ cs) s = run-IsSound (step db c) cs (step-IsSound db c s)
