-- ===== src/Platform/RateLimit/Tests.antt =====
-- Runs of a limiter, and the theorems of its siblings at concrete inputs.
use loupe_backend.Prelude.Text.{Text, split, strip}
use loupe_backend.Prelude.{◌≤◌, ◌≡◌, refl, none, some, [], ◌∷◌, ◌++◌, arith, length, get, put, pop}
use loupe_backend.Platform.RateLimit.{
  SlidingWindow, hit_within, evict, prune, max_tracked, eviction_batch, client_key, newest,
  sort_by_newest, pop_all, unknown, or_unknown,
}
use loupe_backend.Platform.RateLimit.Sliding.{Log, spec_log, log_within, Uncrowded}
use loupe_backend.Platform.RateLimit.Rate.{hit-eq-spec, hit_rate, within}
use loupe_backend.Platform.RateLimit.Memory.{run, length-run}
use loupe_backend.Platform.RateLimit.Client.{
  IsEntry, appended, client_key-appended, client_key-spoofed,
}

abbrev two_in_ten : SlidingWindow
two_in_ten = record { limit = 2; window = 10; buckets = [] }

abbrev hits : Log
hits = ("a", 1) ∷ ("a", 2) ∷ ("b", 3) ∷ ("a", 4) ∷ ("a", 12) ∷ []

-- The third hit of "a" within ten ticks is refused, and room comes back when the first one ages.
allowed :
    log_within max_tracked eviction_batch two_in_ten [] hits
    ≡ ("a", 12) ∷ ("b", 3) ∷ ("a", 2) ∷ ("a", 1) ∷ []
unfolding log_within hit_within evict prune get put
allowed = refl

hits-Uncrowded : Uncrowded max_tracked eviction_batch two_in_ten hits
unfolding hit_within evict prune get put
hits-Uncrowded = omega arith

hit-eq-spec_example :
    log_within max_tracked eviction_batch two_in_ten [] hits ≡ spec_log 2 10 [] hits
hit-eq-spec_example = hit-eq-spec 2 10 0 hits (omega arith) hits-Uncrowded

hit_rate_run : within 10 1 "a" (log_within max_tracked eviction_batch two_in_ten [] hits) ≤ 2
hit_rate_run = hit_rate 2 10 0 1 "a" hits (omega arith) hits-Uncrowded

length-run_example : length (run two_in_ten hits).buckets ≤ 10001
length-run_example = length-run 2 10 hits

-- The oldest keys come first, a key without hits among them, and ties keep their order.
oldest_first :
    sort_by_newest (("a", 5 ∷ []) ∷ ("b", 1 ∷ 3 ∷ []) ∷ ("c", []) ∷ ("d", 3 ∷ []) ∷ [])
    ≡ ("c", []) ∷ ("b", 1 ∷ 3 ∷ []) ∷ ("d", 3 ∷ []) ∷ ("a", 5 ∷ []) ∷ []
unfolding sort_by_newest newest
oldest_first = refl

-- Above two keys the two oldest go.
evicted : evict 2 2 (("a", 5 ∷ []) ∷ ("b", 1 ∷ []) ∷ ("c", 2 ∷ []) ∷ []) ≡ ("a", 5 ∷ []) ∷ []
unfolding evict sort_by_newest newest pop_all pop
evicted = refl

-- "1.2" and "9".
abbrev peer : Text
peer = b'1' ∷ b'.' ∷ b'2' ∷ []

abbrev edge : Text
edge = b'9' ∷ []

peer-IsEntry : IsEntry peer
unfolding strip
peer-IsEntry = record { stripped = refl; nonempty = λ e. cc; whole = (refl, (refl, (refl, tt))) }

edge-IsEntry : IsEntry edge
unfolding strip
edge-IsEntry = record { stripped = refl; nonempty = λ e. cc; whole = (refl, tt) }

-- The client claims to be "7, 8"; one proxy saw "1.2", and a second saw the first at "9".
client_key-appended_run :
    client_key 2 (record {
      forwarded_for = some ((b'7' ∷ b',' ∷ b' ' ∷ b'8' ∷ []) ++ appended (peer ∷ edge ∷ []));
      host = none;
    })
    ≡ peer
client_key-appended_run =
    client_key-appended (b'7' ∷ b',' ∷ b' ' ∷ b'8' ∷ []) peer (edge ∷ []) none
      (peer-IsEntry, (edge-IsEntry, tt))

first_entry_is_the_key :
    client_key 0 (record { forwarded_for = some (edge ++ b',' ∷ peer); host = none }) ≡ edge
first_entry_is_the_key = client_key-spoofed edge peer none edge-IsEntry

no_address :
    client_key 1 (record { forwarded_for = some (b' ' ∷ b',' ∷ []); host = none }) ≡ unknown
unfolding client_key split strip or_unknown
no_address = refl
