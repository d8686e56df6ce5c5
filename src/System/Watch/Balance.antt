-- ===== src/System/Watch/Balance.antt =====
-- RunWatch closes what it opens, on every path through it.
use ced.Base.{
  ℕ, zero, suc, ◌+◌, ◌==◌, ◌≡◌, ◌≢◌, refl, if◌then◌else◌, Bool, Option, none, some, List, [], ◌∷◌,
  ◌++◌, map, arith, All,
}
use ced.System.Watch.{Call, opens, closes, clean_up, run_inotify, run_kqueue, open_paths}

-- How often a descriptor is opened and closed.
unfoldable pub opened : ℕ → List Call → ℕ
opened fd [] = 0
opened fd (opens d ∷ cs) = if d == fd then opened fd cs + 1 else opened fd cs
opened fd (closes d ∷ cs) = opened fd cs

unfoldable pub closed : ℕ → List Call → ℕ
closed fd [] = 0
closed fd (opens d ∷ cs) = closed fd cs
closed fd (closes d ∷ cs) = if d == fd then closed fd cs + 1 else closed fd cs

counted : ℕ → List ℕ → ℕ
counted fd [] = 0
counted fd (d ∷ ds) = if d == fd then counted fd ds + 1 else counted fd ds

opened-clean_up : (fd : ℕ) (ds : List ℕ) → opened fd (clean_up ds) ≡ 0
unfolding opened
opened-clean_up fd [] = refl
opened-clean_up fd (d ∷ ds) = opened-clean_up fd ds

closed-clean_up : (fd : ℕ) (ds : List ℕ) → closed fd (clean_up ds) ≡ counted fd ds
unfolding closed counted
closed-clean_up fd [] = refl
closed-clean_up fd (d ∷ ds) = ground (arith, closed-clean_up fd ds)

opened-append :
    (fd : ℕ) (ds : List ℕ) (cs : List Call)
    → opened fd (map opens ds ++ cs) ≡ counted fd ds + opened fd cs
unfolding opened counted
opened-append fd [] cs = omega arith
opened-append fd (d ∷ ds) cs = ground (arith, opened-append fd ds cs)

closed-append :
    (fd : ℕ) (ds : List ℕ) (cs : List Call) → closed fd (map opens ds ++ cs) ≡ closed fd cs
unfolding closed
closed-append fd [] cs = refl
closed-append fd (d ∷ ds) cs = closed-append fd ds cs

-- What the loop opens, it leaves to the Cleanup, if no open gives 0.
open_paths_lem :
    (paths : List (Option ℕ))
    → All (λ o. o ≢ some 0) paths
    → (open_paths paths).1 ≡ (open_paths paths).2
unfolding open_paths
open_paths_lem [] h = refl
open_paths_lem (none ∷ rest) h = refl
open_paths_lem (some zero ∷ rest) h = absurd (h.0 refl)
open_paths_lem (some (suc n) ∷ rest) h = rw (open_paths_lem rest h.1)

-- RunWatch on either system, whatever call fails, where no path is opened as descriptor 0: every
-- descriptor is closed as often as it is opened.
pub run_watch-closes :
    (init : Option ℕ) (added : List Bool) (quiet : Bool) (paths : List (Option ℕ))
    (events : Option (List Bool)) (fd : ℕ)
    → All (λ o. o ≢ some 0) paths
    → (opened fd (run_inotify init added quiet).1 ≡ closed fd (run_inotify init added quiet).1)
      × (opened fd (run_kqueue init paths events).1 ≡ closed fd (run_kqueue init paths events).1)
unfolding run_inotify run_kqueue opened closed
run_watch-closes none added quiet paths events fd h = (refl, refl)
run_watch-closes (some d) added quiet paths events fd h =
    let o = open_paths paths in
    (
      ground arith,
      ground (
        arith,
        opened-append fd o.1 (clean_up (d ∷ o.2)),
        closed-append fd o.1 (clean_up (d ∷ o.2)),
        opened-clean_up fd (d ∷ o.2),
        closed-clean_up fd o.2,
        open_paths_lem paths h,
      ),
    )
