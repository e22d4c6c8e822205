-- ===== src/Processes/Tests.antt =====
-- Runs of the two programs.
use high_performance_linux_s.Base.{◌≡◌, refl, [], ◌∷◌, pos}
use high_performance_linux_s.SystemCalls.{Reply, Out, done, call}
use high_performance_linux_s.SystemCalls.Descriptors.{start}
use high_performance_linux_s.Servers.Sample.{returning}
use high_performance_linux_s.Processes.{guid, sigmask_main}

-- What the run returned.
ended : {A : Type 0} → A → Out A → A
ended other (done a w) = a
ended other out = other

user : Reply
user = record (returning (pos 0)) { value = 1000 }

group : Reply
group = record (returning (pos 0)) { value = 100 }

-- The effective user is not asked for.
shows_group : ended (0, 0) (guid (start (user ∷ group ∷ []))) ≡ (1000, 100)
unfolding ended guid user group call
shows_group = refl

exits : ended 0 (sigmask_main (start (returning (pos 0) ∷ returning (pos 11) ∷ []))) ≡ 1
unfolding ended sigmask_main call
exits = refl
