-- ===== src/TimeWheel/Sweep.antt =====
-- The loop of `tick` over the list of one slot.
use high_performance_linux_s.Base.{
  ◌-◌, ◌≡◌, refl, ◌≢◌, true, false, some, List, [], ◌∷◌, arith, ltb, if◌then◌else◌, Bool-cases, inl,
  inr, ne→==, or_false_right,
}
use high_performance_linux_s.Nodes.{Fired, Ptr, null, node, Store, write}
use high_performance_linux_s.Nodes.Returns.{Returns, returns}
use high_performance_linux_s.Nodes.Links.{
  has, first, Links, SameOutside, Links-write, load-ok, set_next-ok, set_prev-ok,
}
use high_performance_linux_s.TimeWheel.{TwTimer, TwCells, bypass}

abbrev pub lower : TwTimer → TwTimer
lower v = record v { rotation = v.rotation - 1 }

-- The timers that wait for a further turn of the wheel, a turn less, and the others.
unfoldable pub kept : TwCells → TwCells
kept [] = []
kept ((p, v) ∷ xs) = if ltb 0 v.rotation then (p, lower v) ∷ kept xs else kept xs

unfoldable pub expired : TwCells → TwCells
expired [] = []
expired ((p, v) ∷ xs) = if ltb 0 v.rotation then expired xs else (p, v) ∷ expired xs

-- The callbacks of `xs`, the last first, in front of `log`.
unfoldable pub calls : TwCells → List Fired → List Fired
calls [] log = log
calls ((p, v) ∷ xs) log = calls xs (record { callee = v.cb_func; argument = v.user_data } ∷ log)

abbrev pub HasCallback : Ptr × TwTimer → Type 0
HasCallback (p, v) = v.cb_func ≢ 0

pub kept_nil : kept [] ≡ []
unfolding kept
kept_nil = refl

pub expired_nil : expired [] ≡ []
unfolding expired
expired_nil = refl

pub calls_nil : (log : List Fired) → calls [] log ≡ log
unfolding calls
calls_nil log = refl

module _ (p : Ptr) (v : TwTimer) (xs : TwCells) where
  pub kept_turns : ltb 0 v.rotation ≡ true → kept ((p, v) ∷ xs) ≡ (p, lower v) ∷ kept xs
  unfolding kept
  kept_turns t = rw t

  pub kept_fires : ltb 0 v.rotation ≡ false → kept ((p, v) ∷ xs) ≡ kept xs
  unfolding kept
  kept_fires t = rw t

  pub expired_turns : ltb 0 v.rotation ≡ true → expired ((p, v) ∷ xs) ≡ expired xs
  unfolding expired
  expired_turns t = rw t

  pub expired_fires : ltb 0 v.rotation ≡ false → expired ((p, v) ∷ xs) ≡ (p, v) ∷ expired xs
  unfolding expired
  expired_fires t = rw t

  pub calls_cons :
      (log : List Fired)
      → calls ((p, v) ∷ xs) log
        ≡ calls xs (record { callee = v.cb_func; argument = v.user_data } ∷ log)
  unfolding calls
  calls_cons log = refl

pub has-kept : (a : Ptr) (xs : TwCells) → has a xs ≡ false → has a (kept xs) ≡ false
has-kept a [] o = rw kept_nil refl
has-kept a ((p, v) ∷ xs) o = elim (Bool-cases (ltb 0 v.rotation)) [
  | inl t ↦ rw (kept_turns p v xs t) (ground (arith, has-kept a xs))
  | inr t ↦ rw (kept_fires p v xs t) (has-kept a xs (or_false_right _ _ o))
]

-- A node between `q` and `xs`, bypassed.
pub record Bypassed (h : Store TwTimer) (pv q : Ptr) (u : TwTimer) (p : Ptr) (v : TwTimer)
    (xs : TwCells) (g : Store TwTimer) : Type 0 where
  pub links : Links g pv ((q, u) ∷ xs) null
  pub node_is : g p ≡ some (node v q (first xs null))
  pub same : SameOutside ((q, u) ∷ xs) h g

pub bypass_lem :
    (h : Store TwTimer) (pv q : Ptr) (u : TwTimer) (p : Ptr) (v : TwTimer) (xs : TwCells)
    → Links h pv ((q, u) ∷ (p, v) ∷ xs) null
    → Returns (λ _ g. Bypassed h pv q u p v xs g) (bypass p h)
unfolding bypass write
bypass_lem h pv q u p v [] ls =
    let (hq, qne, qout, (hp, pne, pout, rest)) = ls in
    let h₁ = write h q (some (node u pv null)) in
    rw (load-ok h p _ pne hp) (
      rw (set_next-ok h q _ qne hq null) (
        rw (load-ok h₁ p (node v q null) pne (ground arith)) (
          returns (record {
            links = (ground arith, qne, refl, tt);
            node_is = ground arith;
            same = λ a o. ground arith;
          }))))
bypass_lem h pv q u p v ((r, w) ∷ xs) ls =
    let (hq, qne, qout, (hp, pne, pout, (hr, rne, rout, rest))) = ls in
    let h₁ = write h q (some (node u pv r)) in
    let h₂ = write h₁ r (some (node w q (first xs null))) in
    rw (load-ok h p _ pne hp) (
      rw (set_next-ok h q _ qne hq r) (
        rw (load-ok h₁ p (node v q r) pne (ground arith), ne→== r null rne)
          (rw (set_prev-ok h₁ r (node w p (first xs null)) rne (ground arith) q) (
            returns (record {
              links = (
                ground arith,
                qne,
                ground arith,
                (
                  ground arith,
                  rne,
                  rout,
                  Links-write h₁ r xs null r _ rout
                      (Links-write h r xs null q _ (ground arith) rest),
                ),
              );
              node_is = ground arith;
              same = λ a o. ground arith;
            })))))
