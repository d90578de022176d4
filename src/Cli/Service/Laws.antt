-- ===== src/Cli/Service/Laws.antt =====
-- How the process of the service ends, and what its Stop waits for.
use straggler.Base.{
  All-filter_by, ℕ, ◌+◌, ◌<◌, ◌≡◌, inl, inr, refl, ap, ◌∙◌, ◌≢◌, List, [], ◌∷◌, some, Bool, All,
  Option-cases, arith,
}
use straggler.Base.Int.{ℤ, pos}
use straggler.Base.Result.{Result, ok, err, panic}
use straggler.Base.State.{M}
use straggler.Cli.Service.{
  Lifecycle, not_started, start, manager_returns, begin_stop, Outcome, returned, or_exit,
  run_service,
}

module _ {W : Type 0} where
  or_exit_returned :
      {A : Type 0} (code : ℤ) (s : Result A × W) (next : A → W → Outcome × W) (w' : W)
      → or_exit code s next ≡ (returned, w')
      → (a : A) × (w₁ : W) × (s ≡ (ok a, w₁)) × (next a w₁ ≡ (returned, w'))
  unfolding or_exit
  or_exit_returned code (ok a, w₁) next w' h = (a, w₁, refl, h)
  or_exit_returned code (err e, w₁) next w' h = absurd (cc h)
  or_exit_returned code (panic, w₁) next w' h = absurd (cc h)

  -- If the process of the service returns, then the service was created, started and, after a signal,
  -- stopped, each without an error.
  pub run_service-returned :
      {C : Type 0} (new_cmd : M W C) (start_service : C → M W (Unit {0})) (await_signal : W → W)
      (stop_service : C → M W (Unit {0})) (w w' : W)
      → run_service new_cmd start_service await_signal stop_service w ≡ (returned, w')
      → (service : C) × (w₁ : W) × (w₂ : W) × (new_cmd w ≡ (ok service, w₁))
        × (start_service service w₁ ≡ (ok tt, w₂))
        × (stop_service service (await_signal w₂) ≡ (ok tt, w'))
  unfolding run_service
  run_service-returned new_cmd start_service await_signal stop_service w w' h =
      let (service, w₁, created, h₁) =
        or_exit_returned (pos 1) (new_cmd w)
          (λ service w.
            or_exit (pos 1) (start_service service w)
              λ _ w. or_exit (pos 1) (stop_service service (await_signal w)) λ _ w. (returned, w))
          w' h in
      let (_, w₂, started, h₂) =
        or_exit_returned (pos 1) (start_service service w₁)
          (λ _ w. or_exit (pos 1) (stop_service service (await_signal w)) λ _ w. (returned, w)) w'
          h₁ in
      let (_, w₃, stopped, h₃) =
        or_exit_returned (pos 1) (stop_service service (await_signal w₂)) (λ _ w. (returned, w)) w'
          h₂ in
      (service, w₁, w₂, created, started, stopped ∙ ap (λ w. (ok tt, w)) (ap (λ s. s.1) h₃))

-- What happens to a service, in any order.
pub data Step : Lifecycle → Lifecycle → Type 0 where
  starts : (synced : Bool) (s : Lifecycle) → Step s (start synced s).1
  returns : (run : ℕ) (s : Lifecycle) → Step s (manager_returns run s)
  stops : (s : Lifecycle) → Step s (begin_stop s).1

pub data Reach : Lifecycle → Lifecycle → Type 0 where
  begin : (s : Lifecycle) → Reach s s
  step : (s s' s'' : Lifecycle) → Reach s s' → Step s' s'' → Reach s s''

-- The numbers of the runs were all given out.
pub record IsNumbered (s : Lifecycle) : Type 0 where
  pub running_made : All (λ r. r < s.next_run) s.running
  pub cancelled_made : All (λ r. r < s.next_run) s.cancelled
  pub latest : (r : ℕ) → s.shutdown_complete_chan ≡ some r → r < s.next_run

All-suc : (n : ℕ) (rs : List ℕ) → All (λ r. r < n) rs → All (λ r. r < n + 1) rs
All-suc n [] h = tt
All-suc n (r ∷ rs) h = (omega (arith, h.0), All-suc n rs h.1)

step-IsNumbered : (s s' : Lifecycle) → Step s s' → IsNumbered s → IsNumbered s'
unfolding start manager_returns begin_stop
step-IsNumbered _ _ (starts synced s) h = record {
  running_made = (omega arith, All-suc s.next_run s.running h.running_made);
  cancelled_made = All-suc s.next_run s.cancelled h.cancelled_made;
  latest = λ r e. ground (arith, e);
}
step-IsNumbered _ _ (returns run s) h = record {
  running_made = All-filter_by _ _ _ s.running (λ r m _. m) h.running_made;
  cancelled_made = h.cancelled_made;
  latest = h.latest;
}
step-IsNumbered _ _ (stops s) h = elim (Option-cases s.shutdown_complete_chan) [
  | inl none_yet ↦ rw none_yet (record {
    running_made = h.running_made;
    cancelled_made = h.cancelled_made;
    latest = λ r e. absurd (cc e);
  })
  | inr (run, e) ↦ rw e (record {
    running_made = h.running_made;
    cancelled_made = (h.latest run e, h.cancelled_made);
    latest = λ r same. ground (arith, same, h.latest run e);
  })
]

Reach-IsNumbered : (s s' : Lifecycle) → Reach s s' → IsNumbered s → IsNumbered s'
Reach-IsNumbered _ _ (begin s) h = h
Reach-IsNumbered _ _ (step s s' s'' before last) h =
    step-IsNumbered s' s'' last (Reach-IsNumbered s s' before h)

not_started-IsNumbered : IsNumbered not_started
not_started-IsNumbered = record {
  running_made = tt;
  cancelled_made = tt;
  latest = λ r e. absurd (cc e);
}

All-other : (n : ℕ) (rs : List ℕ) → All (λ r. r < n) rs → All (λ r. r ≢ n) rs
All-other n [] h = tt
All-other n (r ∷ rs) h = (λ e. omega (arith, e, h.0), All-other n rs h.1)

-- Whatever was started, stopped and returned before: a Start makes a run of its own, which is not
-- running and not cancelled yet, and the Stop after it cancels this run and waits for it, also where
-- the caches were not synced.
pub Reach-begin_stop :
    (s : Lifecycle) (synced : Bool)
    → Reach not_started s
    → All (λ r. r ≢ s.next_run) s.running
      × All (λ r. r ≢ s.next_run) s.cancelled
      × ((begin_stop (start synced s).1).0 ≡ some s.next_run)
      × ((begin_stop (start synced s).1).1.cancelled ≡ s.next_run ∷ s.cancelled)
unfolding begin_stop start
Reach-begin_stop s synced reach =
    let h = Reach-IsNumbered not_started s reach not_started-IsNumbered in
    (
      All-other s.next_run s.running h.running_made,
      All-other s.next_run s.cancelled h.cancelled_made,
      refl,
      refl,
    )
