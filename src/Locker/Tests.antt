-- ===== src/Locker/Tests.antt =====
-- A condition variable that cannot be initialised.
use high_performance_linux_s.Base.{[], pos}
use high_performance_linux_s.Locker.{Os, cond_init, cond_new}
use high_performance_linux_s.Locker.Balance.{IsBalanced, cond_new-IsBalanced}

abbrev os : Os
os calls cond_init = pos 12
os calls _ = pos 0

cond_new-IsBalanced_example : IsBalanced os [] (cond_new os []).0 (cond_new os []).1
cond_new-IsBalanced_example = cond_new-IsBalanced os []
