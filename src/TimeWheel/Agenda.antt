-- ===== src/TimeWheel/Agenda.antt =====
-- The wheel as an agenda: how many ticks each timer has left.
use high_performance_linux_s.Base.{
  ℕ, ◌+◌, ◌-◌, ◌*◌, ◌%◌, ◌<◌, ◌≡◌, refl, ◌≢◌, List, [], ◌∷◌, arith, ltb, ◌==◌, if◌then◌else◌, All,
  Bool-cases, inl, inr,
}
use high_performance_linux_s.Nodes.{Ptr}
use high_performance_linux_s.TimeWheel.{TwTimer, TwCells, slot_count}
use high_performance_linux_s.TimeWheel.Sweep.{
  lower, kept, expired, kept_nil, expired_nil, kept_turns, kept_fires, expired_turns, expired_fires,
}

-- The ticks before the one at which the timer fires, when `cur` is the current slot.
unfoldable pub due_in : ℕ → TwTimer → ℕ
due_in cur v = v.rotation * slot_count + (v.time_slot + slot_count - cur) % slot_count

unfoldable pub remaining : ℕ → TwCells → List (Ptr × ℕ)
remaining cur [] = []
remaining cur ((p, v) ∷ xs) = (p, due_in cur v) ∷ remaining cur xs

-- A timer without ticks left fires; the others have one less.
unfoldable pub count_down : List (Ptr × ℕ) → List (Ptr × ℕ)
count_down [] = []
count_down ((p, n) ∷ xs) = if n == 0 then count_down xs else (p, n - 1) ∷ count_down xs

unfoldable pub due_now : ℕ → TwCells → TwCells
unfolding due_in
due_now cur [] = []
due_now cur ((p, v) ∷ xs) = if due_in cur v == 0 then (p, v) ∷ due_now cur xs else due_now cur xs

module _ (cur : ℕ) (lt : cur < slot_count) where
  abbrev pub next : ℕ
  next = (cur + 1) % slot_count

  module _ (v : TwTimer) where
    pub due_in-now : v.time_slot ≡ cur → (v.rotation ≡ 0) → due_in cur v ≡ 0
    unfolding due_in
    due_in-now e r = omega arith

    pub due_in-turns : v.time_slot ≡ cur → 0 < v.rotation → due_in cur v ≡ v.rotation * 60
    unfolding due_in
    due_in-turns e r = omega arith

    pub due_in-lower :
        v.time_slot ≡ cur → 0 < v.rotation → due_in next (lower v) ≡ v.rotation * 60 - 1
    unfolding due_in
    due_in-lower e r = omega arith

    pub due_in-other :
        (i : ℕ) → i < slot_count → i ≢ cur → v.time_slot ≡ i → due_in next v + 1 ≡ due_in cur v
    unfolding due_in
    due_in-other i b ne e = omega arith

  pub remaining-kept :
      (xs : TwCells)
      → All (λ c. c.1.time_slot ≡ cur) xs
      → remaining next (kept xs) ≡ count_down (remaining cur xs)
  unfolding remaining count_down
  remaining-kept [] placed = rw kept_nil refl
  remaining-kept ((p, v) ∷ xs) placed = elim (Bool-cases (ltb 0 v.rotation)) [
    | inl t ↦ rw (kept_turns p v xs t) (
        ground
          (arith, due_in-turns v placed.0, due_in-lower v placed.0, remaining-kept xs placed.1))
    | inr t ↦
        rw (kept_fires p v xs t, due_in-now v placed.0 (ground arith)) (remaining-kept xs placed.1)
  ]

  pub remaining-other :
      (i : ℕ) (xs : TwCells)
      → i < slot_count
      → i ≢ cur
      → All (λ c. c.1.time_slot ≡ i) xs
      → remaining next xs ≡ count_down (remaining cur xs)
  unfolding remaining count_down
  remaining-other i [] b ne placed = refl
  remaining-other i ((p, v) ∷ xs) b ne placed =
      let e = due_in-other v i b ne placed.0 in ground (arith, remaining-other i xs b ne placed.1)

  pub due_now-expired :
      (xs : TwCells) → All (λ c. c.1.time_slot ≡ cur) xs → expired xs ≡ due_now cur xs
  unfolding due_now
  due_now-expired [] placed = rw expired_nil refl
  due_now-expired ((p, v) ∷ xs) placed = elim (Bool-cases (ltb 0 v.rotation)) [
    | inl t ↦
        rw (expired_turns p v xs t)
          (ground (arith, due_in-turns v placed.0, due_now-expired xs placed.1))
    | inr t ↦
        rw (expired_fires p v xs t, due_in-now v placed.0 (ground arith))
          (ground (arith, due_now-expired xs placed.1))
  ]

  pub due_now-other :
      (i : ℕ) (xs : TwCells)
      → i < slot_count
      → i ≢ cur
      → All (λ c. c.1.time_slot ≡ i) xs
      → due_now cur xs ≡ []
  unfolding due_now
  due_now-other i [] b ne placed = refl
  due_now-other i ((p, v) ∷ xs) b ne placed =
      let e = due_in-other v i b ne placed.0 in ground (arith, due_now-other i xs b ne placed.1)
