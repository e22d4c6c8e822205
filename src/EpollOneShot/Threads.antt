-- ===== src/EpollOneShot/Threads.antt =====
-- src/epoll_one_shot.cc as a system: `main` and its workers, over the descriptors that report once.
-- Each step is one access to what they share, and the steps interleave freely. `epoll` behaves as
-- documented: a descriptor that was added or modified with EPOLLONESHOT is reported at most once until
-- it is modified again. `accept` returns a descriptor that is not open.
-- The end of `worker` is taken to end its thread here, though it has no `return`.
pub mod Alone
mod Tests
use high_performance_linux_s.Base.{ℕ, ◌≡◌, Bool, true, false, List, [], ◌∷◌, ◌==◌, if◌then◌else◌}

-- An event of `epoll_wait`: the listening socket, a client's socket with EPOLLIN, or without.
pub data Report : Type 0 where
  new_connection : Report
  readable : (fd : ℕ) → Report
  something_else : (fd : ℕ) → Report

-- Where a thread stands: `starting fd` has not yet read its argument, into which `main` had put `fd`
-- when it created the thread; `serving fd` is in the loop, with `sock_fd` equal to `fd`.
pub data Phase : Type 0 where
  unborn : Phase
  starting : (fd : ℕ) → Phase
  serving : (fd : ℕ) → Phase
  ended : Phase

-- `sock_fd` is that of `fds_for_new_worker`, to which every thread has a pointer; `events` are the
-- reports that `main` has still to go through.
pub record System : Type 0 where
  pub sock_fd : ℕ
  pub events : List Report
  pub is_open : ℕ → Bool
  pub armed : ℕ → Bool
  pub threads : ℕ → Phase

unfoldable pub put {ℓ} : {A : Type ℓ} → ℕ → A → (ℕ → A) → ℕ → A
put i a f j = if j == i then a else f j

-- The reports of one `epoll_wait`, and what they leave armed.
pub data Reported : (ℕ → Bool) → List Report → (ℕ → Bool) → Type 0 where
  no_more : {armed : ℕ → Bool} → Reported armed [] armed
  listening :
      {armed armed' : ℕ → Bool} {rs : List Report}
      → Reported armed rs armed'
      → Reported armed (new_connection ∷ rs) armed'
  ready :
      {armed armed' : ℕ → Bool} {rs : List Report} (fd : ℕ)
      → armed fd ≡ true
      → Reported (put fd false armed) rs armed'
      → Reported armed (readable fd ∷ rs) armed'
  other :
      {armed armed' : ℕ → Bool} {rs : List Report} (fd : ℕ)
      → armed fd ≡ true
      → Reported (put fd false armed) rs armed'
      → Reported armed (something_else fd ∷ rs) armed'

-- One step of `main` (the first six) or of the thread `t`. A thread whose `recv` brings data, or
-- fails but for EAGAIN, goes round its loop and changes nothing that is shared.
pub data Step (s : System) : System → Type 0 where
  waited :
      {rs : List Report} {armed' : ℕ → Bool}
      → s.events ≡ []
      → Reported s.armed rs armed'
      → Step s (record s { events = rs; armed = armed' })
  accepted :
      {rs : List Report} (fd : ℕ)
      → s.events ≡ new_connection ∷ rs
      → s.is_open fd ≡ false
      → Step s
          (record s { events = rs; is_open = put fd true s.is_open; armed = put fd true s.armed })
  accept_failed :
      {rs : List Report} → s.events ≡ new_connection ∷ rs → Step s (record s { events = rs })
  created :
      {rs : List Report} {fd : ℕ} (t : ℕ)
      → s.events ≡ readable fd ∷ rs
      → s.threads t ≡ unborn
      → Step s (record s { sock_fd = fd; events = rs; threads = put t (starting fd) s.threads })
  create_failed :
      {rs : List Report} {fd : ℕ}
      → s.events ≡ readable fd ∷ rs
      → Step s (record s { sock_fd = fd; events = rs })
  passed_over :
      {rs : List Report} {fd : ℕ}
      → s.events ≡ something_else fd ∷ rs
      → Step s (record s { events = rs })
  began :
      {fd : ℕ} (t : ℕ)
      → s.threads t ≡ starting fd
      → Step s (record s { threads = put t (serving s.sock_fd) s.threads })
  reset :
      {fd : ℕ} (t : ℕ)
      → s.threads t ≡ serving fd
      → Step s (record s { armed = put fd true s.armed; threads = put t ended s.threads })
  closed :
      {fd : ℕ} (t : ℕ)
      → s.threads t ≡ serving fd
      → Step s (record s {
        is_open = put fd false s.is_open;
        armed = put fd false s.armed;
        threads = put t ended s.threads;
      })

-- The thread reads its argument before `main` puts another descriptor into the variable.
pub IsTimely : {s s' : System} → Step s s' → Type 0
IsTimely {s = s} (began {fd = fd} t at) = s.sock_fd ≡ fd
IsTimely _ = Unit

-- The state behind `add_fd` of the listening socket.
abbrev pub initial : System
initial = record {
  sock_fd = 0;
  events = [];
  is_open = λ fd. false;
  armed = λ fd. false;
  threads = λ t. unborn;
}

-- Any number of steps.
pub data Reach : System → Type 0 where
  start : Reach initial
  later : {s s' : System} → Reach s → Step s s' → Reach s'

-- Any number of steps in which every thread reads its argument in time.
pub data TimelyReach : System → Type 0 where
  start_timely : TimelyReach initial
  later_timely :
      {s s' : System} → TimelyReach s → (step : Step s s') → IsTimely step → TimelyReach s'
