-- ===== src/SortTimerList/Client.antt =====
-- The sorted timer list under any sequence of calls.
use mathlib.Core.Path.{subst}
use high_performance_linux_s.Base.{
  ℕ, suc, ◌+◌, ◌<◌, ◌≤◌, ◌≡◌, refl, ◌∙◌, sym, ap, ◌≢◌, ◌⊎◌, false, some, List, [], ◌∷◌, ◌++◌, arith,
  ltb, length, All, All-append, length-append, Bool-cases, inl, inr, append-ne-nil,
}
use high_performance_linux_s.Nodes.{
  Fired, Ptr, null, node, Store, Cmd, pure, ◌>>=◌, ◌>>◌, load, store, set_body, write,
}
use high_performance_linux_s.Nodes.Returns.{Returns, returns, Returns-bind, Returns-mono}
use high_performance_linux_s.Nodes.Links.{
  has, first, last, Links-write, load-ok, set_body-ok, write_self, write_other,
}
use high_performance_linux_s.Nodes.Links.Split.{
  last-append, first-append, Links-suffix, Links-apart, Links-replace,
}
use high_performance_linux_s.SortTimerList.{
  UtilTimer, TimerCells, TimerList, add_timer, adjust_timer, delete_timer, tick, IsList,
}
use high_performance_linux_s.SortTimerList.Order.{
  insert, IsSorted, insert-IsSorted, adjust-IsSorted, remove-IsSorted,
}
use high_performance_linux_s.SortTimerList.Insert.{add_timer-insert}
use high_performance_linux_s.SortTimerList.Adjust.{adjust_timer-insert}
use high_performance_linux_s.SortTimerList.Remove.{delete_timer-removes}
use high_performance_linux_s.SortTimerList.Sweep.{HasCallback, due, later, fired, tick_lem}
use high_performance_linux_s.SortTimerList.Sorted.{due-append-later}

-- What a program does to the list: it adds a timer that `new` put at `t`, sets a timer's `expire` and
-- adjusts it, deletes a timer, or calls `tick` at a time.
pub data Op : Type 0 where
  add : (t : Ptr) → (tv : UtilTimer) → Op
  postpone : (t : Ptr) → (expire : ℕ) → Op
  delete : (t : Ptr) → Op
  sweep : (cur : ℕ) → Op

unfoldable pub perform : ℕ → Op → TimerList → Cmd UtilTimer (TimerList × List Fired)
perform k (add t tv) l = do store t (some (node tv null null)); l' ← add_timer k t l; pure (l', [])
perform k (postpone t expire) l = do
  n ← load t
  set_body t (record n.body { expire = expire })
  l' ← adjust_timer k t l
  pure (l', [])
perform k (delete t) l = do l' ← delete_timer t l; pure (l', [])
perform k (sweep cur) l = tick k cur l

-- The callbacks that ran, the latest first.
unfoldable pub run : ℕ → List Op → TimerList → Cmd UtilTimer (TimerList × List Fired)
unfolding perform
run k [] l = pure (l, [])
run k (op ∷ ops) l = do r ← perform k op l; r' ← run k ops r.0; pure (r'.0, r'.1 ++ r.1)

-- What an operation means for the list of the timers, in order of their expiry, and which callbacks
-- it runs. The last of several timers is not deleted, and an expiry is only raised.
pub data Does : Op → TimerCells → TimerCells → List Fired → Type 0 where
  adds :
      {t : Ptr} {tv : UtilTimer} {xs : TimerCells}
      → t ≢ null
      → has t xs ≡ false
      → tv.cb_func ≢ 0
      → Does (add t tv) xs (insert (t, tv) xs) []
  postpones :
      {t : Ptr} {expire : ℕ} (old : UtilTimer) (ys zs : TimerCells)
      → old.expire ≤ expire
      → Does
          (postpone t expire)
          (ys ++ (t, old) ∷ zs)
          (ys ++ insert (t, record old { expire = expire }) zs)
          []
  deletes :
      {t : Ptr} (tv : UtilTimer) (ys zs : TimerCells)
      → (ys ≡ []) ⊎ (zs ≢ [])
      → Does (delete t) (ys ++ (t, tv) ∷ zs) (ys ++ zs) []
  sweeps : {cur : ℕ} {xs : TimerCells} → Does (sweep cur) xs (later cur xs) (fired (due cur xs) [])

pub data History : List Op → TimerCells → TimerCells → List Fired → Type 0 where
  over : {xs : TimerCells} → History [] xs xs []
  next :
      {op : Op} {ops : List Op} {xs ys zs : TimerCells} {log log' : List Fired}
      → Does op xs ys log
      → History ops ys zs log'
      → History (op ∷ ops) xs zs (log' ++ log)

-- A sorted list of timers with callbacks.
pub record IsGood (h : Store UtilTimer) (l : TimerList) (xs : TimerCells) : Type 0 where
  pub list : IsList h l xs
  pub sorted : IsSorted xs
  pub callbacks : All HasCallback xs

All-insert :
    (t : Ptr) (tv : UtilTimer) (xs : TimerCells)
    → tv.cb_func ≢ 0
    → All HasCallback xs
    → All HasCallback (insert (t, tv) xs)
unfolding insert
All-insert t tv [] cb all = (cb, tt)
All-insert t tv ((q, w) ∷ xs) cb all = elim (Bool-cases (ltb tv.expire w.expire)) [
  | inl lt ↦ rw lt (cb, all)
  | inr ge ↦ rw ge (all.0, All-insert t tv xs cb all.1)
]

All-split :
    (ys zs : TimerCells) → All HasCallback (ys ++ zs) → All HasCallback ys × All HasCallback zs
All-split [] zs all = (tt, all)
All-split ((p, v) ∷ ys) zs all =
    let (front, behind) = All-split ys zs all.1 in ((all.0, front), behind)

length-insert :
    (t : Ptr) (tv : UtilTimer) (xs : TimerCells) → length (insert (t, tv) xs) ≡ suc (length xs)
unfolding insert
length-insert t tv [] = refl
length-insert t tv ((q, w) ∷ xs) = elim (Bool-cases (ltb tv.expire w.expire)) [
  | inl lt ↦ rw lt refl
  | inr ge ↦ rw ge (ap suc (length-insert t tv xs))
]

IsSorted-right : (ys zs : TimerCells) → IsSorted (ys ++ zs) → IsSorted zs
IsSorted-right [] zs s = s
IsSorted-right ((p, v) ∷ ys) zs s = IsSorted-right ys zs s.1

-- A change of a timer's own fields.
set_body-IsList :
    (h : Store UtilTimer) (l : TimerList) (t : Ptr) (old tv : UtilTimer) (ys zs : TimerCells)
    → IsList h l (ys ++ (t, old) ∷ zs)
    → IsList (write h t (some (node tv (last null ys) (first zs null)))) l (ys ++ (t, tv) ∷ zs)
set_body-IsList h l t old tv ys zs is =
    let behind : TimerCells = (t, old) ∷ zs in
    let c = some (node tv (last null ys) (first zs null)) in
    let ls = Links-suffix h null ys behind null is.links in
    let apart = λ (a : Ptr). Links-apart h null ys behind null a is.links in
    record {
      links =
          Links-replace h (write h t c) null ys behind ((t, tv) ∷ zs) null is.links
            (λ a i. write_other h t c a (ground (arith, apart a i))) (λ a i. apart a i) refl
            (write_self h t c, ls.1, ls.2, Links-write h t zs null t c ls.2 ls.3);
      head = is.head ∙ first-append ys behind ((t, tv) ∷ zs) null refl;
      tail = λ _.
          is.tail (append-ne-nil ys _ _)
          ∙ last-append null ys behind
          ∙ sym (last-append null ys ((t, tv) ∷ zs));
    }

-- What an operation leaves.
record IsDone (ys : TimerCells) (log : List Fired) (r : TimerList × List Fired)
    (g : Store UtilTimer) : Type 0 where
  good : IsGood g r.0 ys
  log_is : r.1 ≡ log

Does-length :
    {op : Op} {xs ys : TimerCells} {log : List Fired}
    → Does op xs ys log
    → length ys ≤ suc (length xs)
Does-length (adds {t = t} {tv = tv} {xs = xs} ne out cb) = omega (arith, length-insert t tv xs)
Does-length (postpones {t = t} {expire = e} old ys zs le) =
    let tv : UtilTimer = record old { expire = e } in
    omega (
      arith,
      length-append ys (insert (t, tv) zs),
      length-append ys ((t, old) ∷ zs),
      length-insert t tv zs,
    )
Does-length (deletes {t = t} tv ys zs side) =
    omega (arith, length-append ys zs, length-append ys ((t, tv) ∷ zs))
Does-length (sweeps {cur = cur} {xs = xs}) =
    let e = ap length (due-append-later cur xs) in
    omega (arith, e, length-append (due cur xs) (later cur xs))

module _ (k : ℕ) (h : Store UtilTimer) (l : TimerList) where
  perform-postpone :
      (t : Ptr) (e : ℕ) (old : UtilTimer) (ys zs : TimerCells)
      → old.expire ≤ e
      → IsGood h l (ys ++ (t, old) ∷ zs)
      → length (ys ++ (t, old) ∷ zs) < k
      → Returns
          (IsDone (ys ++ insert (t, record old { expire = e }) zs) [])
          (perform k (postpone t e) l h)
  unfolding perform
  perform-postpone t e old ys zs le good fuel =
      let tv : UtilTimer = record old { expire = e } in
      let ls = Links-suffix h null ys ((t, old) ∷ zs) null good.list.links in
      let (front, (cb, behind)) = All-split ys ((t, old) ∷ zs) good.callbacks in
      rw (load-ok h t _ ls.1 ls.0, set_body-ok h t _ ls.1 ls.0 tv)
        (Returns-bind
          (adjust_timer-insert k _ l t tv ys zs (set_body-IsList h l t old tv ys zs good.list)
            (omega (arith, length-append ys ((t, old) ∷ zs))))
          λ l' g a. returns (record {
            good = record {
              list = a.list;
              sorted = adjust-IsSorted t old tv ys zs good.sorted le;
              callbacks =
                  All-append HasCallback ys (insert (t, tv) zs) front
                    (All-insert t tv zs cb behind);
            };
            log_is = refl;
          }))

  perform-Does :
      {op : Op} {xs ys : TimerCells} {log : List Fired}
      → Does op xs ys log
      → IsGood h l xs
      → length xs < k
      → Returns (IsDone ys log) (perform k op l h)
  unfolding perform
  perform-Does (adds {t = t} {tv = tv} {xs = xs} ne out cb) good fuel =
      let fresh = some (node tv null null) in
      Returns-bind
        (add_timer-insert (write h t fresh) t tv ne k l xs (write_self h t fresh) out
          (record {
            links = Links-write h null xs null t fresh out good.list.links;
            head = good.list.head;
            tail = good.list.tail;
          })
          (omega arith))
        λ l' g a. returns (record {
          good = record {
            list = a.list;
            sorted = insert-IsSorted t tv xs good.sorted;
            callbacks = All-insert t tv xs cb good.callbacks;
          };
          log_is = refl;
        })
  perform-Does (postpones {t = t} {expire = e} old ys zs le) good fuel =
      perform-postpone t e old ys zs le good fuel
  perform-Does (deletes {t = t} tv ys zs side) good fuel =
      let (front, (cb, behind)) = All-split ys ((t, tv) ∷ zs) good.callbacks in
      Returns-bind (delete_timer-removes h l t tv ys zs good.list side) λ l' g a. returns (record {
        good = record {
          list = a.list;
          sorted = remove-IsSorted (t, tv) ys zs good.sorted;
          callbacks = All-append HasCallback ys zs front behind;
        };
        log_is = refl;
      })
  perform-Does (sweeps {cur = cur} {xs = xs}) good fuel =
      let parts = due-append-later cur xs in
      Returns-mono (tick_lem k cur h l xs good.list good.callbacks fuel) λ r g t. record {
        good = record {
          list = t.list;
          sorted =
              IsSorted-right (due cur xs) (later cur xs) (subst IsSorted (sym parts) good.sorted);
          callbacks =
              (All-split (due cur xs) (later cur xs)
                (subst (All HasCallback) (sym parts) good.callbacks)).1;
        };
        log_is = t.log_is;
      }

-- What a whole run leaves: a good list of the timers `ys`, and the callbacks `log`.
pub record IsRun (ys : TimerCells) (log : List Fired) (r : TimerList × List Fired)
    (g : Store UtilTimer) : Type 0 where
  pub good : IsGood g r.0 ys
  pub log_is : r.1 ≡ log

-- Whatever sequence of operations a program performs on a good list, if it only adds new timers with
-- a callback, only raises an expiry, and never deletes the last of several timers: every operation
-- returns, with as many rounds as there are timers and operations, the list stays sorted and
-- doubly linked, and it holds exactly the timers, and runs exactly the callbacks, in the order, that
-- the same operations on a sorted list of timers have.
pub run-History :
    (k : ℕ) {ops : List Op} {xs ys : TimerCells} {log : List Fired}
    → History ops xs ys log
    → (h : Store UtilTimer) (l : TimerList) → IsGood h l xs
    → length xs + length ops < k
    → Returns (IsRun ys log) (run k ops l h)
unfolding run
run-History k over h l good fuel = returns (record { good = good; log_is = refl })
run-History k (next {log = log} {log' = log'} does rest) h l good fuel =
    Returns-bind (perform-Does k h l does good (omega arith)) λ r g d.
      Returns-bind (run-History k rest g r.0 d.good (omega (arith, Does-length does))) λ r' g' i.
        returns (record {
          good = i.good;
          log_is =
              ap (λ (a : List Fired). a ++ r.1) i.log_is
              ∙ ap (λ (a : List Fired). log' ++ a) d.log_is;
        })
