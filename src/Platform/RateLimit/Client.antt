-- ===== src/Platform/RateLimit/Client.antt =====
-- Whom a limiter counts a request against (rate_limit.py, `_client_key`).
use loupe_backend.Prelude.Text.{Text, split, strip, split-append, split_none}
use mathlib.Core.List.{append-nil}
use loupe_backend.Prelude.{
  suc, ◌-◌, ◌≡◌, refl, ap, ◌≢◌, false, Option, some, List, [], ◌∷◌, ◌++◌, arith, ◌==◌, length,
  length-append, All,
}
use loupe_backend.Platform.RateLimit.{entries, nth, pick, client_key}

-- A header entry that is neither blank nor padded, and has no comma.
pub record IsEntry (p : Text) : Type 0 where
  pub stripped : strip p ≡ p
  pub nonempty : p ≢ []
  pub whole : All (λ c. (c == b',') ≡ false) p

abbrev pub AllEntries : List Text → Type 0
AllEntries = All IsEntry

-- What proxies append to the header, each its peer's address behind a comma and a space.
abbrev pub appended : List Text → Text
appended [] = []
appended (p ∷ ps) = b',' ∷ b' ' ∷ p ++ appended ps

entries-append : (xs ys : List Text) → entries (xs ++ ys) ≡ entries xs ++ entries ys
unfolding entries
entries-append [] ys = refl
entries-append (x ∷ xs) ys = ground (arith, entries-append xs ys)

entries-one : (p : Text) → IsEntry p → entries ((b' ' ∷ p) ∷ []) ≡ p ∷ []
unfolding entries strip
entries-one [] h = absurd (h.nonempty refl)
entries-one (c ∷ p) h = ground (arith, h.stripped)

entries-split-appended :
    (s : Text) (ps : List Text)
    → AllEntries ps
    → entries (split b',' (s ++ appended ps)) ≡ entries (split b',' s) ++ ps
entries-split-appended s [] h = rw append-nil (rw append-nil refl)
entries-split-appended s (p ∷ ps) h = rw (split-append b',' s ((b' ' ∷ p) ++ appended ps)) (
    rw (entries-append (split b',' s) (split b',' ((b' ' ∷ p) ++ appended ps))) (
      ap (λ l. entries (split b',' s) ++ l)
        (rw (entries-split-appended (b' ' ∷ p) ps h.1)
          (rw (split_none b',' (b' ' ∷ p) (refl, h.0.whole)) (rw (entries-one p h.0) refl)))))

nth-length : (xs : List Text) (p : Text) (ps : List Text) → nth (length xs) (xs ++ p ∷ ps) ≡ some p
unfolding nth
nth-length [] p ps = refl
nth-length (x ∷ xs) p ps = nth-length xs p ps

pick-append :
    (xs : List Text) (p : Text) (ps : List Text) → pick (suc (length ps)) (xs ++ p ∷ ps) ≡ some p
unfolding pick
pick-append xs p ps =
    let e : length (xs ++ p ∷ ps) - suc (length ps) ≡ length xs =
      omega (arith, length-append xs (p ∷ ps)) in
    ground (arith, length-append xs (p ∷ ps), e, nth-length xs p ps)

-- With N trusted proxies and N hops configured, whatever text a client sends in X-Forwarded-For, a
-- request is counted against the address that the outermost trusted proxy saw: the client cannot
-- choose its key.
pub client_key-appended :
    (client p : Text) (ps : List Text) (host : Option Text)
    → AllEntries (p ∷ ps)
    → client_key
        (length (p ∷ ps))
        (record { forwarded_for = some (client ++ appended (p ∷ ps)); host = host })
      ≡ p
unfolding client_key
client_key-appended client p ps host h =
    rw (entries-split-appended client (p ∷ ps) h)
      (rw (pick-append (entries (split b',' client)) p ps) refl)

-- With no hops configured, the default, the first entry that the client itself writes is its key.
pub client_key-spoofed :
    (p rest : Text) (host : Option Text)
    → IsEntry p
    → client_key 0 (record { forwarded_for = some (p ++ b',' ∷ rest); host = host }) ≡ p
unfolding client_key entries nth
client_key-spoofed [] rest host h = absurd (h.nonempty refl)
client_key-spoofed (c ∷ p) rest host h =
    rw (split-append b',' (c ∷ p) rest)
      (rw (split_none b',' (c ∷ p) h.whole) (ground (arith, h.stripped)))
