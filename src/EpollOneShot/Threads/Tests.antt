-- ===== src/EpollOneShot/Threads/Tests.antt =====
-- Runs of `main` with two clients, 5 and 6.
use high_performance_linux_s.Base.{ℕ, ◌≡◌, refl, true, false}
use high_performance_linux_s.EpollOneShot.Threads.{
  serving, System, put, no_more, listening, ready, IsTimely, waited, accepted, created, began,
  Reach, start, later, TimelyReach, start_timely, later_timely,
}
use high_performance_linux_s.EpollOneShot.Threads.Alone.{timely-alone}

-- Both clients are accepted and reported, and the first thread reads its argument only after `main`
-- has put the second descriptor into it: both threads serve 6, and none serves 5.
both_serve_6 : (s : System) × Reach s × (s.threads 0 ≡ serving 6) × (s.threads 1 ≡ serving 6)
unfolding put
both_serve_6 = (
  _,
  later
      (later
        (later
          (later
            (later
              (later
                (later (later start (waited refl (listening (listening no_more))))
                  (accepted 5 refl refl))
                (accepted 6 refl refl))
              (waited refl (ready 5 refl (ready 6 refl no_more))))
            (created 0 refl refl))
          (created 1 refl refl))
        (began 0 refl))
      (began 1 refl),
  refl,
  refl,
)

-- The first thread reads its argument in time: each thread serves its own client.
each_its_own : (s : System) × TimelyReach s × (s.threads 0 ≡ serving 5) × (s.threads 1 ≡ serving 6)
unfolding put IsTimely
each_its_own = (
  _,
  later_timely
      (later_timely
        (later_timely
          (later_timely
            (later_timely
              (later_timely
                (later_timely
                  (later_timely start_timely (waited refl (listening (listening no_more))) tt)
                  (accepted 5 refl refl) tt)
                (accepted 6 refl refl) tt)
              (waited refl (ready 5 refl (ready 6 refl no_more))) tt)
            (created 0 refl refl) tt)
          (began 0 refl) refl)
        (created 1 refl refl) tt)
      (began 1 refl) refl,
  refl,
  refl,
)

timely-alone_example :
    ◌≡◌ {A = ℕ} 0 0 × (each_its_own.0.is_open 5 ≡ true) × (each_its_own.0.armed 5 ≡ false)
timely-alone_example = timely-alone each_its_own.1 0 0 5 each_its_own.2 each_its_own.2
