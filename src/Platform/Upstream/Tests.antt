-- ===== src/Platform/Upstream/Tests.antt =====
-- `request_json` at concrete replies.
use loupe_backend.Prelude.{ℕ, ◌≡◌, refl, Bool, true, false, none, some, [], ◌∷◌, leb, get, put}
use loupe_backend.Platform.Breaker.{leave, Registry, enter, new_breaker, get_breaker}
use loupe_backend.Platform.Upstream.{
  contains, judge, blocked, unreachable, response, attempt, request_json,
}
use loupe_backend.Platform.Upstream.Accounting.{
  Accounted, is_raised, attempt-Accounted, attempt_expected,
}

abbrev client_error : ℕ → Bool
client_error s = leb 400 s

attempt_counted :
    let (v, b') =
      attempt {J = ℕ} client_error false [] (new_breaker "tcgdex" 1 60) 7 (response 503 none) 9 in
    Accounted (new_breaker "tcgdex" 1 60) v b' 9
attempt_counted =
    attempt-Accounted client_error false [] (new_breaker "tcgdex" 1 60) 7 (response 503 none) 9

expected_status_passes :
    is_raised
      (attempt {J = ℕ} client_error false
        (400 ∷ [])
        (new_breaker "ygoprodeck" 1 60)
        7
        (response 400 none)
        9).0
    ≡ false
unfolding contains
expected_status_passes =
    attempt_expected client_error false (400 ∷ []) (new_breaker "ygoprodeck" 1 60) 7 400 none 9 refl

abbrev down : Registry
down = (request_json {J = ℕ} client_error true [] [] "tcgdex" 1 60 7 unreachable 9).1

-- One failure opens a breaker of threshold 1, and the next request is refused for the rest of the 60.
second_blocked :
    (request_json {J = ℕ} client_error true [] down "tcgdex" 1 60 29 (response 200 (some 5)) 30).0
    ≡ blocked 40
unfolding request_json get_breaker enter get put judge leave
second_blocked = refl
