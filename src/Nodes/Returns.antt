-- ===== src/Nodes/Returns.antt =====
-- Total correctness of a command: no undefined behaviour, enough fuel, and a postcondition.
use high_performance_linux_s.Nodes.{Store, Run, ok, Cmd, and_then}

pub data Returns {V A : Type 0} (P : A → Store V → Type 0) : Run V A → Type 0 where
  returns : {a : A} {h : Store V} → P a h → Returns P (ok a h)

module _ {V A : Type 0} {P : A → Store V → Type 0} where
  pub Returns-bind :
      {B : Type 0} {Q : B → Store V → Type 0} {r : Run V A} {k : A → Cmd V B}
      → Returns P r
      → ((a : A) (h : Store V) → P a h → Returns Q (k a h))
      → Returns Q (and_then r k)
  Returns-bind (returns p) next = next _ _ p

  pub Returns-mono :
      {Q : A → Store V → Type 0} {r : Run V A}
      → Returns P r
      → ((a : A) (h : Store V) → P a h → Q a h)
      → Returns Q r
  Returns-mono (returns p) weaken = returns (weaken _ _ p)
