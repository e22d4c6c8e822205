-- ===== src/TimeHeap/Arrays.antt =====
-- The heap's array read as a function of the index, and its timers counted.
use high_performance_linux_s.Base.{
  ℕ, zero, suc, ◌+◌, ◌-◌, ◌/◌, ◌<◌, ◌≤◌, ◌≡◌, refl, ◌≢◌, ap, true, false, none, some, List, [], ◌∷◌,
  arith, ◌==◌, if◌then◌else◌, length, get_elem?, set, Bool-cases, inl, inr, ==→eq, ne→==, lt→ltb,
}
use high_performance_linux_s.Nodes.{Ptr, null}
use high_performance_linux_s.TimeHeap.{HeapTimer, Timers, TimeHeap, load, write, expire_at}

unfoldable pub at : List Ptr → ℕ → Ptr
at [] i = null
at (p ∷ ps) zero = p
at (p ∷ ps) (suc i) = at ps i

unfoldable pub fill : (ℕ → Ptr) → ℕ → Ptr → ℕ → Ptr
fill f i p j = if j == i then p else f j

module _ (f : ℕ → Ptr) (i : ℕ) (p : Ptr) (j : ℕ) where
  pub hit : (j == i) ≡ true → fill f i p j ≡ p
  unfolding fill
  hit e = rw e

  pub miss : (j == i) ≡ false → fill f i p j ≡ f j
  unfolding fill
  miss e = rw e

pub get_elem?-at : (a : List Ptr) (i : ℕ) → i < length a → get_elem? a i ≡ some (at a i)
unfolding at
get_elem?-at [] i b = absurd (omega arith)
get_elem?-at (p ∷ ps) zero b = refl
get_elem?-at (p ∷ ps) (suc i) b = get_elem?-at ps i (omega arith)

pub at-set :
    (a : List Ptr) (i : ℕ) (p : Ptr) (j : ℕ) → i < length a → at (set a i p) j ≡ fill (at a) i p j
unfolding at fill
at-set [] i p j b = absurd (omega arith)
at-set (x ∷ xs) zero p zero b = refl
at-set (x ∷ xs) zero p (suc j) b = ground arith
at-set (x ∷ xs) (suc i) p zero b = ground arith
at-set (x ∷ xs) (suc i) p (suc j) b = ground (arith, at-set xs i p j (omega arith))

pub write-ok : (a : List Ptr) (i : ℕ) (p : Ptr) → i < length a → write a i p ≡ some (set a i p)
unfolding write
write-ok a i p b = rw (lt→ltb _ _ b)

-- The expiry of a timer, 0 where there is none.
unfoldable pub key : Timers → Ptr → ℕ
key ts p = elim (ts p) [ none ↦ 0 | some t ↦ t.expire ]

abbrev pub IsLive : Timers → Ptr → Type 0
IsLive ts p = (p ≢ null) × (t : HeapTimer) × (ts p ≡ some t)

pub load-live :
    (ts : Timers) (p : Ptr)
    → IsLive ts p
    → (t : HeapTimer) × (load ts p ≡ some t) × (t.expire ≡ key ts p)
unfolding load key
load-live ts p (ne, t, e) = (t, rw (ne→== p null ne) e, rw (key, e))

pub expire_at-ok :
    (ts : Timers) (a : List Ptr) (i : ℕ)
    → i < length a
    → IsLive ts (at a i)
    → expire_at ts a i ≡ some (key ts (at a i))
unfolding expire_at
expire_at-ok ts a i b live =
    let (t, e, k) = load-live ts (at a i) live in rw (get_elem?-at a i b) (rw e (ap some k))

-- How often `q` stands below index `n`.
unfoldable pub one : Ptr → Ptr → ℕ
one q p = if p == q then 1 else 0

unfoldable pub count : Ptr → (ℕ → Ptr) → ℕ → ℕ
count q f zero = 0
count q f (suc n) = one q (f n) + count q f n

pub count-suc : (q : Ptr) (f : ℕ → Ptr) (n : ℕ) → count q f (suc n) ≡ one q (f n) + count q f n
unfolding count
count-suc q f n = refl

pub count-same :
    (q : Ptr) (f g : ℕ → Ptr) (n : ℕ) → ((i : ℕ) → i < n → f i ≡ g i) → count q f n ≡ count q g n
unfolding count
count-same q f g zero e = refl
count-same q f g (suc n) e =
    let rest = count-same q f g n λ i b. e i (omega arith) in
    let here : one q (f n) ≡ one q (g n) = ap (one q) (e n (omega arith)) in omega arith

pub count-fill :
    (q : Ptr) (f : ℕ → Ptr) (i : ℕ) (p : Ptr) (n : ℕ)
    → i < n
    → count q (fill f i p) n + one q (f i) ≡ count q f n + one q p
unfolding count fill
count-fill q f i p zero b = absurd (omega arith)
count-fill q f i p (suc n) b = elim (Bool-cases (n == i)) [
  | inl e ↦
      let here : one q (f n) ≡ one q (f i) = ap (λ (x : ℕ). one q (f x)) (==→eq n i e) in
      let rest = count-same q (fill f i p) f n λ j c. ground arith in rw e (omega arith)
  | inr ne ↦ let rest = count-fill q f i p n (ground arith) in rw ne (omega arith)
]

-- A heap of live timers, in the order of their expiry along every edge.
pub record IsHeap (ts : Timers) (h : TimeHeap) : Type 0 where
  pub room : length h.array ≡ h.capacity
  pub size : h.cur_size ≤ h.capacity
  pub alive : (i : ℕ) → i < h.cur_size → IsLive ts (at h.array i)
  pub order :
      (i : ℕ) → 0 < i → i < h.cur_size → key ts (at h.array ((i - 1) / 2)) ≤ key ts (at h.array i)

-- How often `q` stands in the heap.
abbrev pub count_in : Ptr → TimeHeap → ℕ
count_in q h = count q (at h.array) h.cur_size
