-- ===== src/SortTimerList/Destroy.antt =====
-- The destructor `~sort_timer_list`.
use high_performance_linux_s.Base.{
  ℕ, zero, suc, ◌<◌, ◌≡◌, refl, ◌∙◌, true, none, [], ◌∷◌, arith, length, ne→==, or_false_left,
  or_false_right,
}
use high_performance_linux_s.Nodes.{Ptr, null, Store, write}
use high_performance_linux_s.Nodes.Returns.{Returns, returns, Returns-mono}
use high_performance_linux_s.Nodes.Links.{
  has, first, Links, SameOutside, Links-write, load-ok, free-ok, write_self, write_other,
  freed-cons,
}
use high_performance_linux_s.SortTimerList.{
  UtilTimer, TimerCells, TimerList, destroy_loop, destroy, IsList,
}

-- What the destructor should leave.
pub record Destroyed (h : Store UtilTimer) (xs : TimerCells) (g : Store UtilTimer) : Type 0 where
  pub freed : (a : Ptr) → has a xs ≡ true → g a ≡ none
  pub same : SameOutside xs h g

destroy_loop_lem :
    (k : ℕ) (h : Store UtilTimer) (pv : Ptr) (xs : TimerCells)
    → Links h pv xs null
    → length xs < k
    → Returns (λ _ g. Destroyed h xs g) (destroy_loop k (first xs null) h)
unfolding destroy_loop
destroy_loop_lem zero h pv xs ls fuel = absurd (omega arith)
destroy_loop_lem (suc k) h pv [] ls fuel =
    returns (record { freed = λ a i. cc; same = λ a o. refl })
destroy_loop_lem (suc k) h pv ((p, v) ∷ xs) ls fuel =
    rw (ne→== p null ls.1, load-ok h p _ ls.1 ls.0)
      (rw (free-ok h p _ ls.1 ls.0) (
        Returns-mono
          (destroy_loop_lem k (write h p none) p xs (Links-write h p xs null p none ls.2 ls.3)
            (omega arith))
          λ _ g s. record {
            freed = freed-cons g p v xs (s.same p ls.2 ∙ write_self h p none) s.freed;
            same = λ a o.
                s.same a (or_false_right _ _ o) ∙ write_other h p none a (or_false_left _ _ o);
          }))

-- The destructor of a valid list, given a round more than the list has timers, returns: every node of
-- the list is freed, none of them twice, and no other node is touched.
pub destroy_lem :
    (k : ℕ) (h : Store UtilTimer) (l : TimerList) (xs : TimerCells)
    → IsList h l xs
    → length xs < k
    → Returns (λ _ g. Destroyed h xs g) (destroy k l h)
unfolding destroy
destroy_lem k h l xs is fuel = rw is.head (destroy_loop_lem k h null xs is.links fuel)
