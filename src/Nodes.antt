-- ===== src/Nodes.antt =====
-- The nodes of the intrusive doubly linked timer lists of include/sort_timer_list.h and
-- include/time_wheel.h: a store of nodes at addresses, and commands that read and write it.
-- A node's own fields (`V`) differ between the two headers; the links are the same.
pub mod Returns
pub mod Links
use high_performance_linux_s.Base.{ℕ, List, ◌∷◌, Option, none, some, ◌==◌, if◌then◌else◌}

abbrev pub Ptr : Type 0
Ptr = ℕ

abbrev pub null : Ptr
null = 0

module _ (V : Type 0) where
  pub record Node : Type 0 where
    pub body : V
    pub prev : Ptr
    pub next : Ptr

  -- What stands at each address; `none` is an address that holds no live node.
  abbrev pub Store : Type 0
  Store = Ptr → Option Node

abbrev pub node : {V : Type 0} → V → Ptr → Ptr → Node V
node v p n = record { body = v; prev = p; next = n }

-- A run ends in a value, in undefined behaviour (a read or write through `nullptr` or through a
-- freed pointer, a second `delete`), or without fuel.
pub data Run (V : Type 0) (A : Type 0) : Type 0 where
  ok : A → Store V → Run V A
  fault : Run V A
  out_of_fuel : Run V A

abbrev pub Cmd : Type 0 → Type 0 → Type 0
Cmd V A = Store V → Run V A

-- A call `cb_func(user_data)`.
pub record Fired : Type 0 where
  pub callee : ℕ
  pub argument : ℕ

module _ {V : Type 0} where
  unfoldable pub write : Store V → Ptr → Option (Node V) → Store V
  write h p c a = if a == p then c else h a

  abbrev pub pure : {A : Type 0} → A → Cmd V A
  pure a h = ok a h

  abbrev pub and_then : {A B : Type 0} → Run V A → (A → Cmd V B) → Run V B
  and_then (ok a h) k = k a h
  and_then fault k = fault
  and_then out_of_fuel k = out_of_fuel

  infixl 5 ◌>>=◌ ◌>>◌
  abbrev pub ◌>>=◌ : {A B : Type 0} → Cmd V A → (A → Cmd V B) → Cmd V B
  ◌>>=◌ m k h = and_then (m h) k

  abbrev pub ◌>>◌ : {B : Type 0} → Cmd V (Unit {0}) → Cmd V B → Cmd V B
  m >> k = m >>= λ _. k

  -- `*p`
  unfoldable pub load : Ptr → Cmd V (Node V)
  load p h = if p == null then fault else elim (h p) [ none ↦ fault | some n ↦ ok n h ]

  abbrev pub store : Ptr → Option (Node V) → Cmd V (Unit {0})
  store p c h = ok tt (write h p c)

  -- `p->body = v`, `p->next = q` and `p->prev = q`
  unfoldable pub set_body : Ptr → V → Cmd V (Unit {0})
  set_body p v = do n ← load p; store p (some (record n { body = v }))

  unfoldable pub set_next : Ptr → Ptr → Cmd V (Unit {0})
  set_next p q = do n ← load p; store p (some (record n { next = q }))

  unfoldable pub set_prev : Ptr → Ptr → Cmd V (Unit {0})
  set_prev p q = do n ← load p; store p (some (record n { prev = q }))

  -- `delete p`; the callers have tested `p` against `nullptr`.
  unfoldable pub free : Ptr → Cmd V (Unit {0})
  free p = load p >>= λ _. store p none

  -- `if(p != nullptr) p->prev = nullptr;`
  unfoldable pub clear_prev : Ptr → Cmd V (Unit {0})
  clear_prev p = if p == null then pure tt else set_prev p null
