-- ===== src/SortTimerList/Order.antt =====
-- What the operations of the sorted list mean: insertion in order of expiry, and its laws.
use mathlib.Core.List.{Perm}
use mathlib.Core.List.Perm
use high_performance_linux_s.Base.{
  ℕ, ◌≡◌, refl, ◌≤◌, ◌||◌, true, false, [], ◌∷◌, ◌++◌, arith, ltb, ◌==◌, if◌then◌else◌, Bool-cases,
  inl, inr, ltb→lt, ltb→le,
}
use high_performance_linux_s.Nodes.{Ptr}
use high_performance_linux_s.Nodes.Links.{has}
use high_performance_linux_s.SortTimerList.{UtilTimer, TimerCells}

-- Before the first timer that expires later.
unfoldable pub insert : Ptr × UtilTimer → TimerCells → TimerCells
insert (t, tv) [] = (t, tv) ∷ []
insert (t, tv) ((q, w) ∷ xs) =
    if ltb tv.expire w.expire then (t, tv) ∷ (q, w) ∷ xs else (q, w) ∷ insert (t, tv) xs

module _ (t : Ptr) (tv : UtilTimer) where
  pub insert-nil : insert (t, tv) [] ≡ (t, tv) ∷ []
  unfolding insert
  insert-nil = refl

  module _ (q : Ptr) (w : UtilTimer) (xs : TimerCells) where
    pub insert_before :
        ltb tv.expire w.expire ≡ true → insert (t, tv) ((q, w) ∷ xs) ≡ (t, tv) ∷ (q, w) ∷ xs
    unfolding insert
    insert_before lt = rw lt

    pub insert_after :
        ltb tv.expire w.expire ≡ false → insert (t, tv) ((q, w) ∷ xs) ≡ (q, w) ∷ insert (t, tv) xs
    unfolding insert
    insert_after ge = rw ge

-- No timer of `xs` expires before `e`.
abbrev pub AllFrom : ℕ → TimerCells → Type 0
AllFrom e [] = Unit
AllFrom e ((p, v) ∷ xs) = (e ≤ v.expire) × AllFrom e xs

abbrev pub IsSorted : TimerCells → Type 0
IsSorted [] = Unit
IsSorted ((p, v) ∷ xs) = AllFrom v.expire xs × IsSorted xs

pub AllFrom-mono : (d e : ℕ) (xs : TimerCells) → d ≤ e → AllFrom e xs → AllFrom d xs
AllFrom-mono d e [] le h = tt
AllFrom-mono d e ((p, v) ∷ xs) le h = (omega arith, AllFrom-mono d e xs le h.1)

AllFrom-insert :
    (e : ℕ) (t : Ptr) (tv : UtilTimer) (xs : TimerCells)
    → e ≤ tv.expire
    → AllFrom e xs
    → AllFrom e (insert (t, tv) xs)
unfolding insert
AllFrom-insert e t tv [] le h = (le, tt)
AllFrom-insert e t tv ((q, w) ∷ xs) le h = ground (arith, AllFrom-insert e t tv xs)

pub insert-IsSorted :
    (t : Ptr) (tv : UtilTimer) (xs : TimerCells) → IsSorted xs → IsSorted (insert (t, tv) xs)
unfolding insert
insert-IsSorted t tv [] s = (tt, tt)
insert-IsSorted t tv ((q, w) ∷ xs) s = elim (Bool-cases (ltb tv.expire w.expire)) [
  | inl lt ↦ rw lt (
    (
      omega (arith, ltb→lt _ _ lt),
      AllFrom-mono tv.expire w.expire xs (omega (arith, ltb→lt _ _ lt)) s.0,
    ),
    s,
  )
  | inr ge ↦
      rw ge (AllFrom-insert w.expire t tv xs (ltb→le _ _ ge) s.0, insert-IsSorted t tv xs s.1)
]

pub insert-perm :
    (t : Ptr) (tv : UtilTimer) (xs : TimerCells) → Perm (insert (t, tv) xs) ((t, tv) ∷ xs)
unfolding insert
insert-perm t tv [] = Perm.refl _
insert-perm t tv ((q, w) ∷ xs) = elim (Bool-cases (ltb tv.expire w.expire)) [
  | inl lt ↦ rw lt (Perm.refl _)
  | inr ge ↦ rw ge (Perm.trans (Perm.cons (q, w) (insert-perm t tv xs)) (Perm.swap _ _ _))
]

pub has-insert :
    (a t : Ptr) (tv : UtilTimer) (xs : TimerCells)
    → has a (insert (t, tv) xs) ≡ ((a == t) || has a xs)
unfolding insert
has-insert a t tv [] = refl
has-insert a t tv ((q, w) ∷ xs) = ground (arith, has-insert a t tv xs)

pub AllFrom-append :
    (e : ℕ) (ys zs : TimerCells) → AllFrom e ys → AllFrom e zs → AllFrom e (ys ++ zs)
AllFrom-append e [] zs p q = q
AllFrom-append e ((p, v) ∷ ys) zs h q = (h.0, AllFrom-append e ys zs h.1 q)

AllFrom-left : (e : ℕ) (ys zs : TimerCells) → AllFrom e (ys ++ zs) → AllFrom e ys
AllFrom-left e [] zs h = tt
AllFrom-left e ((p, v) ∷ ys) zs h = (h.0, AllFrom-left e ys zs h.1)

AllFrom-right : (e : ℕ) (ys zs : TimerCells) → AllFrom e (ys ++ zs) → AllFrom e zs
AllFrom-right e [] zs h = h
AllFrom-right e ((p, v) ∷ ys) zs h = AllFrom-right e ys zs h.1

-- A timer whose expiry grows, moved behind the earlier ones, leaves the list in order.
pub adjust-IsSorted :
    (t : Ptr) (old tv : UtilTimer) (ys zs : TimerCells)
    → IsSorted (ys ++ (t, old) ∷ zs)
    → old.expire ≤ tv.expire
    → IsSorted (ys ++ insert (t, tv) zs)
adjust-IsSorted t old tv [] zs s le = insert-IsSorted t tv zs s.1
adjust-IsSorted t old tv ((p, v) ∷ ys) zs s le =
    let behind = AllFrom-right v.expire ys ((t, old) ∷ zs) s.0 in
    (
      AllFrom-append v.expire ys (insert (t, tv) zs) (AllFrom-left v.expire ys _ s.0)
          (AllFrom-insert v.expire t tv zs (omega arith) behind.1),
      adjust-IsSorted t old tv ys zs s.1 le,
    )

pub adjust-perm :
    (t : Ptr) (tv : UtilTimer) (ys zs : TimerCells)
    → Perm (ys ++ insert (t, tv) zs) (ys ++ (t, tv) ∷ zs)
adjust-perm t tv [] zs = insert-perm t tv zs
adjust-perm t tv (y ∷ ys) zs = Perm.cons y (adjust-perm t tv ys zs)

-- A list that loses a timer stays in order.
pub remove-IsSorted :
    (c : Ptr × UtilTimer) (ys zs : TimerCells) → IsSorted (ys ++ c ∷ zs) → IsSorted (ys ++ zs)
remove-IsSorted (t, tv) [] zs s = s.1
remove-IsSorted (t, tv) ((p, v) ∷ ys) zs s = (
  AllFrom-append v.expire ys zs (AllFrom-left v.expire ys _ s.0)
      (AllFrom-right v.expire ys ((t, tv) ∷ zs) s.0).1,
  remove-IsSorted (t, tv) ys zs s.1,
)
