-- ===== src/Platform/Swr/Wait.antt =====
-- That a request which waits for another's refresh stops waiting (cache_swr.py).
use loupe_backend.Prelude.{
  if_elim, ℕ, zero, suc, ◌+◌, ◌*◌, ◌≤◌, ◌<◌, max, ◌≡◌, refl, ap, ◌∙◌, Bool, true, false, ◌&&◌, not,
  Option, none, some, arith, ltb, if◌then◌else◌, is_some, lt→ltb,
}
use loupe_backend.Platform.Swr.{
  Envelope, Raw, garbled, envelope, Poll, Waited, out_of_fuel, last_resort, served, poll_data,
  poll_raw, wait,
}

-- `_COLD_WAIT_CAP_SECONDS`
abbrev pub cold_wait_cap : ℕ
cold_wait_cap = 15000

-- The wait of a cold miss that begins at `start`, with the deadline that the code gives it.
unfoldable pub cold_wait : {V : Type 0} → (ℕ → Poll V) → ℕ → ℕ → ℕ → Waited V
unfolding wait
cold_wait poll start miss_wait fuel = wait poll (start + max miss_wait cold_wait_cap) 0 fuel

abbrev pub is_over : {V : Type 0} → Waited V → Bool
is_over out_of_fuel = false
is_over last_resort = true
is_over (served v) = true

module _ {V : Type 0} where
  is_over-poll_raw :
      (o : Option (Raw V)) (held : Bool) (rest : Waited V)
      → is_over rest ≡ true
      → is_over (poll_raw o held rest) ≡ true
  is_over-poll_raw none true rest ok = ok
  is_over-poll_raw none false rest ok = refl
  is_over-poll_raw (some garbled) held rest ok = refl
  is_over-poll_raw (some (envelope e)) held rest ok = ground (arith, ok)

  wait-ends :
      (poll : ℕ → Poll V) (deadline i fuel : ℕ)
      → ((j : ℕ) → (poll j).time + 200 ≤ (poll (suc j)).time)
      → deadline ≤ (poll i).time + 200 * fuel
      → is_over (wait poll deadline i (suc fuel)) ≡ true
  unfolding wait
  wait-ends poll deadline i zero slow late =
      if_elim {A = Waited V} (λ w. is_over w ≡ true) (ltb (poll i).time deadline) _ _
        (λ early. ground (arith, early, late)) (λ _. refl)
  wait-ends poll deadline i (suc fuel) slow late =
      if_elim {A = Waited V} (λ w. is_over w ≡ true) (ltb (poll i).time deadline) _ _
        (λ _.
          is_over-poll_raw (poll i).seen (poll i).held (wait poll deadline (suc i) (suc fuel))
            (wait-ends poll deadline (suc i) fuel slow (omega (arith, slow i, late))))
        (λ _. refl)

  -- A waiting request stops waiting: if the polls are at least 200 ms apart, none before the start, then it
  -- is over, with a value or with a refresh of its own, after one poll more than there are
  -- steps of 200 ms in its longest wait; by default that is 76 polls.
  pub cold_wait_ends :
      (poll : ℕ → Poll V) (start miss_wait n : ℕ)
      → start ≤ (poll 0).time
      → ((j : ℕ) → (poll j).time + 200 ≤ (poll (suc j)).time)
      → max miss_wait cold_wait_cap ≤ 200 * n
      → is_over (cold_wait poll start miss_wait (suc n)) ≡ true
  unfolding cold_wait
  cold_wait_ends poll start miss_wait n begun slow enough =
      wait-ends poll (start + max miss_wait cold_wait_cap) 0 n slow (omega (arith, begun, enough))

  -- The polls from i on that find the refresh still running, up to the k-th.
  unfoldable pub is_waiting : (ℕ → Poll V) → ℕ → ℕ → ℕ → Bool
  is_waiting poll deadline i zero = true
  is_waiting poll deadline i (suc k) =
      let p = poll i in
      let rest = is_waiting poll deadline (suc i) k in
      not (is_some p.seen) && p.held && ltb p.time deadline && rest

  poll-again :
      (o : Option (Raw V)) (held : Bool) (rest : Waited V)
      → is_some o ≡ false
      → held ≡ true
      → poll_raw o held rest ≡ rest
  poll-again none held rest unseen e = rw e refl
  poll-again (some r) held rest unseen e = ground (arith, unseen)

  wait-waiting :
      (poll : ℕ → Poll V) (deadline i k fuel : ℕ)
      → is_waiting poll deadline i k ≡ true
      → wait poll deadline i (k + fuel) ≡ wait poll deadline (i + k) fuel
  unfolding wait is_waiting
  wait-waiting poll deadline i zero fuel ok =
      let none_left : 0 + fuel ≡ fuel = omega arith in
      let here : i ≡ i + 0 = omega arith in
      ap (λ f. wait poll deadline i f) none_left ∙ ap (λ j. wait poll deadline j fuel) here
  wait-waiting poll deadline i (suc k) fuel ok =
      let early : ltb (poll i).time deadline ≡ true = ground (arith, ok) in
      let later = wait poll deadline (suc i) (k + fuel) in
      let again =
        poll-again (poll i).seen (poll i).held later (ground (arith, ok)) (ground (arith, ok)) in
      let one_more : suc k + fuel ≡ suc (k + fuel) = omega arith in
      let further : suc i + k ≡ i + suc k = omega arith in
      ap (λ f. wait poll deadline i f) one_more
      ∙ ap (λ b. if b then poll_raw (poll i).seen (poll i).held later else last_resort) early
      ∙ again
      ∙ wait-waiting poll deadline (suc i) k fuel (ground (arith, ok))
      ∙ ap (λ j. wait poll deadline j fuel) further

  -- A waiting request gets the value of the refresh that it waits for: if k polls before the deadline find
  -- the lock held and nothing stored, and the next one a value, it is served that value.
  pub cold_wait_serves :
      (poll : ℕ → Poll V) (start miss_wait k fuel : ℕ) (e : Envelope V) (v : V)
      → is_waiting poll (start + max miss_wait cold_wait_cap) 0 k ≡ true
      → (poll k).time < start + max miss_wait cold_wait_cap
      → (poll k).seen ≡ some (envelope e)
      → e.data_ ≡ some v
      → cold_wait poll start miss_wait (k + suc fuel) ≡ served v
  unfolding cold_wait wait
  cold_wait_serves poll start miss_wait k fuel e v before soon here full =
      let deadline = start + max miss_wait cold_wait_cap in
      let rest = wait poll deadline (suc k) fuel in
      let first_ : 0 + k ≡ k = omega arith in
      wait-waiting poll deadline 0 k (suc fuel) before
      ∙ ap (λ j. wait poll deadline j (suc fuel)) first_
      ∙ ap (λ b. if b then poll_raw (poll k).seen (poll k).held rest else last_resort)
          (lt→ltb (poll k).time deadline soon)
      ∙ ap (λ o. poll_raw o (poll k).held rest) here
      ∙ ap (λ d. poll_data d (poll k).held rest) full
