-- ===== src/Nodes/Links/Split.antt =====
-- Segments taken apart and put together at an inner node.
use high_performance_linux_s.Base.{
  ◌≡◌, refl, true, false, [], ◌∷◌, ◌++◌, arith, ◌==◌, sym, ap, ◌∙◌, ne→==, Bool-cases, inl, inr,
}
use high_performance_linux_s.Nodes.{Ptr, Store}
use high_performance_linux_s.Nodes.Links.{Cells, has, has-append, first, last, Links}

module _ {V : Type 0} where
  pub last-append : (p : Ptr) (ys xs : Cells V) → last p (ys ++ xs) ≡ last (last p ys) xs
  last-append p [] xs = refl
  last-append p ((q, _) ∷ ys) xs = last-append q ys xs

  pub first-append :
      (ys xs zs : Cells V) (stop : Ptr)
      → first xs stop ≡ first zs stop
      → first (ys ++ xs) stop ≡ first (ys ++ zs) stop
  first-append [] xs zs stop e = e
  first-append (y ∷ ys) xs zs stop e = refl

  pub has-last :
      (p q : Ptr) (w : V) (xs : Cells V) → has (last p ((q, w) ∷ xs)) ((q, w) ∷ xs) ≡ true
  has-last p q w [] = ground arith
  has-last p q w ((r, u) ∷ xs) = ground (arith, has-last q r u xs)

  pub last-ne :
      (t q : Ptr) (w : V) (xs : Cells V) → has t ((q, w) ∷ xs) ≡ false → (t == last q xs) ≡ false
  last-ne t q w xs out = ne→== t (last q xs) λ e.
      let both : false ≡ true =
        sym out ∙ ap (λ (a : Ptr). has a ((q, w) ∷ xs)) e ∙ has-last q q w xs in
      cc both

  pub Links-suffix :
      (h : Store V) (prev : Ptr) (ys xs : Cells V) (stop : Ptr)
      → Links h prev (ys ++ xs) stop
      → Links h (last prev ys) xs stop
  Links-suffix h prev [] xs stop l = l
  Links-suffix h prev ((p, v) ∷ ys) xs stop l = Links-suffix h p ys xs stop l.3

  -- The nodes of a segment are distinct.
  pub Links-apart :
      (h : Store V) (prev : Ptr) (ys xs : Cells V) (stop a : Ptr)
      → Links h prev (ys ++ xs) stop
      → has a ys ≡ true
      → has a xs ≡ false
  Links-apart h prev [] xs stop a l i = absurd (ground arith)
  Links-apart h prev ((p, v) ∷ ys) xs stop a l i =
      ground (arith, has-append p ys xs, Links-apart h p ys xs stop a l.3)

  -- A new end, with the same first address, behind a front that a change has spared.
  pub Links-replace :
      (h g : Store V) (prev : Ptr) (ys xs zs : Cells V) (stop : Ptr)
      → Links h prev (ys ++ xs) stop
      → ((a : Ptr) → has a ys ≡ true → g a ≡ h a)
      → ((a : Ptr) → has a ys ≡ true → has a zs ≡ false)
      → first xs stop ≡ first zs stop
      → Links g (last prev ys) zs stop
      → Links g prev (ys ++ zs) stop
  Links-replace h g prev [] xs zs stop l same apart e m = m
  Links-replace h g prev ((p, v) ∷ ys) xs zs stop l same apart e m = (
    ground (arith, same p, first-append ys xs zs stop e),
    l.1,
    ground (arith, has-append p ys zs, has-append p ys xs, apart p),
    Links-replace h g p ys xs zs stop l.3 (λ a i. same a (ground arith))
        (λ a i. apart a (ground arith)) e m,
  )

  -- A node is not in front of itself.
  pub not-has-front :
      (h : Store V) (prev : Ptr) (ys xs : Cells V) (stop a : Ptr)
      → Links h prev (ys ++ xs) stop
      → has a xs ≡ true
      → has a ys ≡ false
  not-has-front h prev ys xs stop a l i = elim (Bool-cases (has a ys)) [
    | inl j ↦ absurd (ground (arith, Links-apart h prev ys xs stop a l j))
    | inr o ↦ o
  ]

  pub not-has-right : (a : Ptr) (ys xs : Cells V) → has a (ys ++ xs) ≡ false → has a xs ≡ false
  not-has-right a ys xs h = ground (arith, has-append a ys xs)

  pub first-ne :
      (t : Ptr) (ys : Cells V) (p : Ptr) (v : V) (xs : Cells V) (stop : Ptr)
      → has t ys ≡ false
      → (t == p) ≡ false
      → (t == first (ys ++ (p, v) ∷ xs) stop) ≡ false
  first-ne t [] p v xs stop out ne = ne
  first-ne t ((q, w) ∷ ys) p v xs stop out ne = ground arith
