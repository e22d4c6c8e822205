-- ===== src/EpollOneShot/Threads/Alone.antt =====
-- No two threads serve the same descriptor, where each thread reads its argument in time.
use high_performance_linux_s.Base.{
  ℕ, ◌+◌, ◌≤◌, ◌≡◌, refl, ◌∙◌, sym, ap, Bool, true, false, List, [], ◌∷◌, ◌==◌, arith, Bool-cases,
  inl, inr, ◌⊎◌, ==→eq, ==_self, ne→==, ==→ne,
}
use high_performance_linux_s.EpollOneShot.Threads.{
  Report, new_connection, readable, something_else, Phase, starting, serving, ended, System, put,
  Reported, no_more, listening, ready, other, Step, waited, accepted, accept_failed, created,
  create_failed, passed_over, began, reset, closed, IsTimely, TimelyReach, start_timely,
  later_timely,
}

weight : Bool → ℕ
weight true = 1
weight false = 0

-- The thread was started for `fd`, and has not ended.
claims : Phase → ℕ → Bool
claims (starting g) fd = g == fd
claims (serving g) fd = g == fd
claims _ fd = false

mentions : ℕ → List Report → ℕ
mentions fd [] = 0
mentions fd (new_connection ∷ rs) = mentions fd rs
mentions fd (readable g ∷ rs) = weight (g == fd) + mentions fd rs
mentions fd (something_else g ∷ rs) = weight (g == fd) + mentions fd rs

-- A descriptor that is closed is neither armed nor reported nor claimed; one that is open is at most
-- one of these, and claimed by one thread at most.
record IsAlone (s : System) : Type 0 where
  alone : (t u fd : ℕ) → claims (s.threads t) fd ≡ true → claims (s.threads u) fd ≡ true → t ≡ u
  busy :
      (t fd : ℕ)
      → claims (s.threads t) fd ≡ true
      → (weight (s.armed fd) + mentions fd s.events ≡ 0) × (s.is_open fd ≡ true)
  once : (fd : ℕ) → weight (s.armed fd) + mentions fd s.events ≤ weight (s.is_open fd)

module _ {ℓ} {A : Type ℓ} (i : ℕ) (a : A) (f : ℕ → A) where
  put_here : put i a f i ≡ a
  unfolding put
  put_here = rw (==_self i) refl

  put_other : (j : ℕ) → (j == i) ≡ false → put i a f j ≡ f j
  unfolding put
  put_other j ne = rw ne refl

flip : (i j : ℕ) → (i == j) ≡ false → (j == i) ≡ false
flip i j ne = ne→== j i λ q. ==→ne i j ne (sym q)

-- A report takes the place of what armed its descriptor.
weight-put :
    (armed : ℕ → Bool) (g fd : ℕ)
    → armed g ≡ true
    → weight (put g false armed fd) + weight (g == fd) ≡ weight (armed fd)
unfolding weight
weight-put armed g fd is = elim (Bool-cases (fd == g)) [
  | inl e ↦ rw (==→eq fd g e) (rw (put_here g false armed, ==_self g, is) refl)
  | inr ne ↦ rw (put_other g false armed fd ne, flip fd g ne) (omega arith)
]

Reported-weight :
    {armed armed' : ℕ → Bool} {rs : List Report}
    → Reported armed rs armed'
    → (fd : ℕ) → weight (armed' fd) + mentions fd rs ≡ weight (armed fd)
unfolding mentions
Reported-weight no_more fd = omega arith
Reported-weight (listening r) fd = Reported-weight r fd
Reported-weight {armed} (ready g is r) fd =
    omega (arith, Reported-weight r fd, weight-put armed g fd is)
Reported-weight {armed} (other g is r) fd =
    omega (arith, Reported-weight r fd, weight-put armed g fd is)

-- A move of the thread `t`.
module _ (s : System) (is : IsAlone s) (t : ℕ) (p : Phase) where
  claims-put :
      (u fd : ℕ)
      → claims (put t p s.threads u) fd ≡ true
      → ((u ≡ t) × (claims p fd ≡ true)) ⊎ (((u == t) ≡ false) × (claims (s.threads u) fd ≡ true))
  claims-put u fd c = elim (Bool-cases (u == t)) [
    | inl e ↦
        let same = ==→eq u t e in
        inl (
          same,
          sym (
                ap (λ (q : Phase). claims q fd)
                  (ap (put t p s.threads) same ∙ put_here t p s.threads))
              ∙ c,
        )
    | inr ne ↦ inr (ne, sym (ap (λ (q : Phase). claims q fd) (put_other t p s.threads u ne)) ∙ c)
  ]

  -- The thread claims no more than before.
  module _ (fewer : (fd : ℕ) → claims p fd ≡ true → claims (s.threads t) fd ≡ true) where
    still : (u fd : ℕ) → claims (put t p s.threads u) fd ≡ true → claims (s.threads u) fd ≡ true
    still u fd c = elim (claims-put u fd c) [
      | inl (e, mine) ↦ ap (λ (x : ℕ). claims (s.threads x) fd) e ∙ fewer fd mine
      | inr (ne, old) ↦ old
    ]

    alone-still :
        (u v fd : ℕ)
        → claims (put t p s.threads u) fd ≡ true
        → claims (put t p s.threads v) fd ≡ true
        → u ≡ v
    alone-still u v fd a b = is.alone u v fd (still u fd a) (still v fd b)

-- A step of `main` that takes the first of the reports.
mentions-first :
    (s : System) (r : Report) (rs : List Report) (fd : ℕ)
    → s.events ≡ r ∷ rs
    → mentions fd rs ≤ mentions fd s.events
unfolding mentions
mentions-first s new_connection rs fd e = rw e (omega arith)
mentions-first s (readable g) rs fd e = rw e (omega arith)
mentions-first s (something_else g) rs fd e = rw e (omega arith)

-- The thread `t`, which served `fd`, ends: another that claims a descriptor claims another one.
module _ (s : System) (is : IsAlone s) (t fd : ℕ) (at : s.threads t ≡ serving fd) where
  mine : claims (s.threads t) fd ≡ true
  unfolding claims
  mine = ap (λ (q : Phase). claims q fd) at ∙ ==_self fd

  others :
      (u g : ℕ)
      → claims (put t ended s.threads u) g ≡ true
      → ((g == fd) ≡ false) × (claims (s.threads u) g ≡ true)
  unfolding claims
  others u g c = elim (claims-put s is t ended u g c) [
    | inl (e, ended_claims) ↦ absurd (cc ended_claims)
    | inr (ne, old) ↦ elim (Bool-cases (g == fd)) [
      | inl same ↦
          let on_fd = sym (ap (claims (s.threads u)) (==→eq g fd same)) ∙ old in
          absurd (==→ne u t ne (is.alone u t fd on_fd mine))
      | inr apart ↦ (apart, old)
    ]
  ]

  alone-ended :
      (u v g : ℕ)
      → claims (put t ended s.threads u) g ≡ true
      → claims (put t ended s.threads v) g ≡ true
      → u ≡ v
  alone-ended u v g a b = is.alone u v g (others u g a).1 (others v g b).1

module _ (s : System) (is : IsAlone s) where
  taken_off :
      (r : Report) (rs : List Report)
      → s.events ≡ r ∷ rs
      → (g : ℕ) → IsAlone (record s { sock_fd = g; events = rs })
  taken_off r rs e g = record {
    alone = is.alone;
    busy = λ t fd c.
        let (zero, open_) = is.busy t fd c in (omega (arith, mentions-first s r rs fd e), open_);
    once = λ fd. omega (arith, is.once fd, mentions-first s r rs fd e);
  }

  accepted-IsAlone :
      (rs : List Report) (fd : ℕ)
      → s.events ≡ new_connection ∷ rs
      → s.is_open fd ≡ false
      → IsAlone
          (record s { events = rs; is_open = put fd true s.is_open; armed = put fd true s.armed })
  unfolding weight
  accepted-IsAlone rs fd e fresh =
      let unused : weight (s.armed fd) + mentions fd s.events ≤ 0 =
        omega (arith, is.once fd, ap weight fresh) in
      record {
        alone = is.alone;
        busy = λ t g c.
            let (zero, open_) = is.busy t g c in
            elim (Bool-cases (g == fd)) [
              | inl same ↦ absurd (cc (sym open_ ∙ ap s.is_open (==→eq g fd same) ∙ fresh))
              | inr ne ↦
                  rw (put_other fd true s.armed g ne, put_other fd true s.is_open g ne)
                    (omega (arith, zero, mentions-first s new_connection rs g e), open_)
            ];
        once = λ g. elim (Bool-cases (g == fd)) [
          | inl same ↦ rw (==→eq g fd same) (
              rw (put_here fd true s.armed, put_here fd true s.is_open)
                (omega (arith, unused, mentions-first s new_connection rs fd e)))
          | inr ne ↦
              rw (put_other fd true s.armed g ne, put_other fd true s.is_open g ne)
                (omega (arith, is.once g, mentions-first s new_connection rs g e))
        ];
      }

  -- A descriptor that is reported is open, is not armed, and no thread claims it.
  module _ (rs : List Report) (fd : ℕ) (e : s.events ≡ readable fd ∷ rs) where
    reported : mentions fd s.events ≡ 1 + mentions fd rs
    unfolding mentions weight
    reported = ap (mentions fd) e ∙ ap (λ (b : Bool). weight b + mentions fd rs) (==_self fd)

    free {ℓ} : {A : Type ℓ} (u : ℕ) → claims (s.threads u) fd ≡ true → A
    free u c = let (zero, open_) = is.busy u fd c in absurd (omega (arith, zero, reported))

    is_open-reported : s.is_open fd ≡ true
    unfolding weight
    is_open-reported = elim (Bool-cases (s.is_open fd)) [
      | inl yes_ ↦ yes_
      | inr no_ ↦ absurd (omega (arith, is.once fd, reported, ap weight no_))
    ]

    reported-unused : weight (s.armed fd) + mentions fd rs ≡ 0
    unfolding weight
    reported-unused = omega (arith, is.once fd, reported, ap weight is_open-reported)

  created-IsAlone :
      (rs : List Report) (fd t : ℕ)
      → s.events ≡ readable fd ∷ rs
      → IsAlone (record s { sock_fd = fd; events = rs; threads = put t (starting fd) s.threads })
  unfolding weight claims
  created-IsAlone rs fd t e = record {
    alone = λ u v g a b. elim (claims-put s is t (starting fd) u g a) [
      | inl (u_is, of_u) ↦ elim (claims-put s is t (starting fd) v g b) [
        | inl (v_is, of_v) ↦ u_is ∙ sym v_is
        | inr (ne, old) ↦ free rs fd e v (ap (claims (s.threads v)) (==→eq fd g of_u) ∙ old)
      ]
      | inr (ne, old) ↦ elim (claims-put s is t (starting fd) v g b) [
        | inl (v_is, of_v) ↦ free rs fd e u (ap (claims (s.threads u)) (==→eq fd g of_v) ∙ old)
        | inr (ne', old') ↦ is.alone u v g old old'
      ]
    ];
    busy = λ u g c. elim (claims-put s is t (starting fd) u g c) [
      | inl (u_is, of_u) ↦
          let same = sym (==→eq fd g of_u) in
          rw same (reported-unused rs fd e, is_open-reported rs fd e)
      | inr (ne, old) ↦
          let (zero, open_) = is.busy u g old in
          (omega (arith, zero, mentions-first s (readable fd) rs g e), open_)
    ];
    once = λ g. omega (arith, is.once g, mentions-first s (readable fd) rs g e);
  }

  reset-IsAlone :
      (t fd : ℕ)
      → s.threads t ≡ serving fd
      → IsAlone (record s { armed = put fd true s.armed; threads = put t ended s.threads })
  unfolding weight
  reset-IsAlone t fd at =
      let (unused, opened) = is.busy t fd (mine s is t fd at) in
      record {
        alone = alone-ended s is t fd at;
        busy = λ u g c.
            let (ne, old) = others s is t fd at u g c in
            rw (put_other fd true s.armed g ne) (is.busy u g old);
        once = λ g. elim (Bool-cases (g == fd)) [
          | inl same ↦
              rw (==→eq g fd same) (rw (put_here fd true s.armed, opened) (omega (arith, unused)))
          | inr ne ↦ rw (put_other fd true s.armed g ne) (is.once g)
        ];
      }

  closed-IsAlone :
      (t fd : ℕ)
      → s.threads t ≡ serving fd
      → IsAlone (record s {
        is_open = put fd false s.is_open;
        armed = put fd false s.armed;
        threads = put t ended s.threads;
      })
  unfolding weight
  closed-IsAlone t fd at =
      let (unused, opened) = is.busy t fd (mine s is t fd at) in
      record {
        alone = alone-ended s is t fd at;
        busy = λ u g c.
            let (ne, old) = others s is t fd at u g c in
            rw (put_other fd false s.armed g ne, put_other fd false s.is_open g ne)
              (is.busy u g old);
        once = λ g. elim (Bool-cases (g == fd)) [
          | inl same ↦
              rw (==→eq g fd same) (
                rw (put_here fd false s.armed, put_here fd false s.is_open) (omega (arith, unused)))
          | inr ne ↦
              rw (put_other fd false s.armed g ne, put_other fd false s.is_open g ne) (is.once g)
        ];
      }

Step-IsAlone : {s s' : System} (step : Step s s') → IsTimely step → IsAlone s → IsAlone s'
unfolding IsTimely weight mentions claims
Step-IsAlone {s} (waited {rs = rs} none_left r) _ is = record {
  alone = is.alone;
  busy =
      λ t fd c. let (zero, open_) = is.busy t fd c in (omega (arith, Reported-weight r fd), open_);
  once = λ fd. omega (arith, is.once fd, Reported-weight r fd);
}
Step-IsAlone {s} (accepted {rs = rs} fd e fresh) _ is = accepted-IsAlone s is rs fd e fresh
Step-IsAlone {s} (accept_failed e) _ is = taken_off s is _ _ e s.sock_fd
Step-IsAlone {s} (created {rs = rs} {fd = fd} t e at) _ is = created-IsAlone s is rs fd t e
Step-IsAlone {s} (create_failed {fd = fd} e) _ is = taken_off s is _ _ e fd
Step-IsAlone {s} (passed_over e) _ is = taken_off s is _ _ e s.sock_fd
Step-IsAlone {s} (began {fd = fd} t at) timely is =
    let fewer = λ (g : ℕ) (c : (s.sock_fd == g) ≡ true).
      ap (λ (q : Phase). claims q g) at ∙ ap (λ (x : ℕ). x == g) (sym timely) ∙ c in
    record {
      alone = alone-still s is t (serving s.sock_fd) fewer;
      busy = λ u g c. is.busy u g (still s is t (serving s.sock_fd) fewer u g c);
      once = is.once;
    }
Step-IsAlone {s} (reset {fd = fd} t at) _ is = reset-IsAlone s is t fd at
Step-IsAlone {s} (closed {fd = fd} t at) _ is = closed-IsAlone s is t fd at

TimelyReach-IsAlone : {s : System} → TimelyReach s → IsAlone s
unfolding weight claims mentions
TimelyReach-IsAlone start_timely = record {
  alone = λ t u fd a b. absurd (cc a);
  busy = λ t fd c. absurd (cc c);
  once = λ fd. omega arith;
}
TimelyReach-IsAlone (later_timely r step timely) = Step-IsAlone step timely (TimelyReach-IsAlone r)

-- In every interleaving of `main` and its threads in which each thread reads its argument before
-- `main` overwrites it: two threads that serve the same descriptor are the same thread, and while a
-- thread serves a descriptor, that is open, and is not armed for a further report.
pub timely-alone :
    {s : System} (r : TimelyReach s) (t u fd : ℕ)
    → s.threads t ≡ serving fd
    → s.threads u ≡ serving fd
    → (t ≡ u) × (s.is_open fd ≡ true) × (s.armed fd ≡ false)
unfolding weight
timely-alone {s} r t u fd at of_u =
    let is = TimelyReach-IsAlone r in
    let (unused, opened) = is.busy t fd (mine s is t fd at) in
    (
      is.alone t u fd (mine s is t fd at) (mine s is u fd of_u),
      opened,
      elim (Bool-cases (s.armed fd)) [
        | inl on ↦ absurd (omega (arith, unused, ap weight on))
        | inr off ↦ off
      ],
    )
