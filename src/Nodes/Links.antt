-- ===== src/Nodes/Links.antt =====
-- Doubly linked segments: the nodes of `xs`, in order, with both links right.
pub mod Split
use high_performance_linux_s.Base.{
  ℕ, ◌≡◌, refl, ap, ◌≢◌, Bool, true, false, ◌||◌, Option, none, some, List, [], ◌∷◌, ◌++◌, arith,
  ◌==◌, ne→==,
}
use high_performance_linux_s.Nodes.{
  Ptr, null, Node, node, Store, ok, fault, write, load, set_body, set_next, set_prev, free,
  clear_prev,
}
use high_performance_linux_s.Nodes.Returns.{Returns, returns}

-- What a list stands for: address and fields of each node, in order.
abbrev pub Cells : Type 0 → Type 0
Cells V = List (Ptr × V)

module _ {V : Type 0} where
  abbrev pub has : Ptr → Cells V → Bool
  has a [] = false
  has a ((p, _) ∷ xs) = (a == p) || has a xs

  -- The first address, or `stop`; the last address, or `prev`.
  abbrev pub first : Cells V → Ptr → Ptr
  first [] stop = stop
  first ((p, _) ∷ xs) stop = p

  abbrev pub last : Ptr → Cells V → Ptr
  last prev [] = prev
  last prev ((p, _) ∷ xs) = last p xs

  abbrev pub Links : Store V → Ptr → Cells V → Ptr → Type 0
  Links h prev [] stop = Unit
  Links h prev ((p, v) ∷ xs) stop =
      (h p ≡ some (node v prev (first xs stop)))
      × (p ≢ null)
      × (has p xs ≡ false)
      × Links h p xs stop

  -- `g` differs from `h` at most at the addresses of `xs`.
  abbrev pub SameOutside : Cells V → Store V → Store V → Type 0
  SameOutside xs h g = (a : Ptr) → has a xs ≡ false → g a ≡ h a

  pub has-append : (a : Ptr) (xs ys : Cells V) → has a (xs ++ ys) ≡ (has a xs || has a ys)
  has-append a [] ys = refl
  has-append a ((p, _) ∷ xs) ys = ground (arith, has-append a xs ys)

  -- A segment survives every change that spares its own nodes.
  pub Links-frame :
      (h g : Store V) (prev : Ptr) (xs : Cells V) (stop : Ptr)
      → Links h prev xs stop
      → ((a : Ptr) → has a xs ≡ true → g a ≡ h a)
      → Links g prev xs stop
  Links-frame h g prev [] stop l same = tt
  Links-frame h g prev ((p, v) ∷ xs) stop l same =
      (ground (arith, same p), l.1, l.2, Links-frame h g p xs stop l.3 λ a i. same a (ground arith))

  pub Links-write :
      (h : Store V) (prev : Ptr) (xs : Cells V) (stop a : Ptr) (c : Option (Node V))
      → has a xs ≡ false
      → Links h prev xs stop
      → Links (write h a c) prev xs stop
  unfolding write
  Links-write h prev xs stop a c out l = Links-frame h _ prev xs stop l λ b i. ground arith

module _ {V : Type 0} (h : Store V) (p : Ptr) (n : Node V) (ne : p ≢ null) (at : h p ≡ some n) where
  pub load-ok : load p h ≡ ok n h
  unfolding load
  load-ok = ground arith

  pub set_body-ok : (v : V) → set_body p v h ≡ ok tt (write h p (some (record n { body = v })))
  unfolding set_body
  set_body-ok v = rw load-ok

  pub set_next-ok : (q : Ptr) → set_next p q h ≡ ok tt (write h p (some (record n { next = q })))
  unfolding set_next
  set_next-ok q = rw load-ok

  pub set_prev-ok : (q : Ptr) → set_prev p q h ≡ ok tt (write h p (some (record n { prev = q })))
  unfolding set_prev
  set_prev-ok q = rw load-ok

  pub free-ok : free p h ≡ ok tt (write h p none)
  unfolding free
  free-ok = rw load-ok

-- A read through a freed pointer is undefined.
pub load-fault : {V : Type 0} (h : Store V) (p : Ptr) → h p ≡ none → load p h ≡ fault
unfolding load
load-fault h p e = ground arith

module _ {V : Type 0} (h : Store V) (p : Ptr) (c : Option (Node V)) where
  pub write_self : write h p c p ≡ c
  unfolding write
  write_self = ground arith

  pub write_other : (a : Ptr) → (a == p) ≡ false → write h p c a ≡ h a
  unfolding write
  write_other a e = ground arith

-- Freed nodes, one by one.
pub freed-cons :
    {V : Type 0} (g : Store V) (p : Ptr) (v : V) (xs : Cells V)
    → g p ≡ none
    → ((a : Ptr) → has a xs ≡ true → g a ≡ none)
    → (a : Ptr) → has a ((p, v) ∷ xs) ≡ true
    → g a ≡ none
freed-cons g p v xs e rest a i = ground (arith, rest a)

module _ {V : Type 0} where
  pub clear_prev_lem :
      (h : Store V) (p : Ptr) (xs : Cells V)
      → Links h p xs null
      → Returns (λ _ g. Links g null xs null × SameOutside xs h g) (clear_prev (first xs null) h)
  unfolding clear_prev write
  clear_prev_lem h p [] ls = returns (tt, λ a o. refl)
  clear_prev_lem h p ((q, w) ∷ xs) ls = rw (ne→== q null ls.1) (
      rw (set_prev-ok h q _ ls.1 ls.0 null) (
        returns
          ((ground arith, ls.1, ls.2, Links-write h q xs null q _ ls.2 ls.3), λ a o. ground arith)))
