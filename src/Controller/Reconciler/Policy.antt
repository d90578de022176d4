-- ===== src/Controller/Reconciler/Policy.antt =====
-- The maximum blocked duration, and when a pod is looked at again.
use Prim.Native.Nat.{min as min_ℕ}
use straggler.Base.{ℕ, ◌-◌, ◌≤◌, ◌<◌, ◌≡◌, refl, true, false, arith, eqb, if◌then◌else◌}
use straggler.Base.Float.{FloatOps, IsIeee, min_exact}
use straggler.Base.Int.{pos, sub64, leb_ℤ, ltb_ℤ}
use straggler.Base.Result.{Result, ok, err, panic}
use straggler.Kube.{Pod}
use straggler.Controller.Reconciler.{
  Reconciler, Requeue, done, time_since, resync_after, apply_policy, evict_overdue, evicted,
  unless_panic,
}

-- The time left of a maximum duration `d`, at an age `now - t` that has not reached it.
sub64-time_since :
    (d now t : ℕ)
    → d < 0x8000_0000_0000_0000
    → t ≤ now
    → now - t < d
    → sub64 (pos d) (time_since now t) ≡ pos (d - (now - t))
unfolding sub64 time_since
sub64-time_since d now t hd ht h = ground arith

sub64-time_since_over :
    (d now t : ℕ)
    → d < 0x8000_0000_0000_0000
    → t ≤ now
    → d ≤ now - t
    → leb_ℤ (sub64 (pos d) (time_since now t)) (pos 0) ≡ true
unfolding sub64 time_since
sub64-time_since_over d now t hd ht h = ground arith

ltb_ℤ_pos : (n : ℕ) → 0 < n → ltb_ℤ (pos 0) (pos n) ≡ true
ltb_ℤ_pos n h = ground arith

gone_lem :
    {W : Type 0} (e : Result (Unit {0})) (later : Requeue) (w : W)
    → evicted e ≡ true
    → unless_panic e w (ok (if evicted e then done else later), w) ≡ (ok done, w)
gone_lem (ok tt) later w h = refl
gone_lem (err x) later w h = rw h refl
gone_lem panic later w h = cc

module _ {W : Type 0} {F : FloatOps} (I : IsIeee F) (r : Reconciler W) (now : ℕ) where
  resync_after_lem :
      (resync d left : ℕ)
      → r.blocked_pod_resync_duration ≡ pos resync
      → resync ≤ 0x20_0000_0000_0000
      → 0 < d
      → 0 < left
      → resync_after F r now (pos d) (pos left) ≡ pos (min_ℕ resync left)
  unfolding resync_after
  resync_after_lem resync d left e h hd hl =
      rw (ltb_ℤ_pos d hd, ltb_ℤ_pos left hl, e) (min_exact I resync left h)

  module _ (pod : Pod) (w : W) (d resync : ℕ) (small : d < 0x8000_0000_0000_0000)
      (resync_is : r.blocked_pod_resync_duration ≡ pos resync)
      (created : 0 < pod.creation_timestamp) (past : pod.creation_timestamp ≤ now) where
    -- Before a positive maximum duration below 2^63 is reached, for a pod with a creation time that
    -- is not after now, nothing is evicted, and the pod is looked at again at the end of the resync
    -- interval, which is at most 2^53, or of the time that is left, whichever is sooner.
    pub apply_policy_early :
        resync ≤ 0x20_0000_0000_0000
        → now - pod.creation_timestamp < d
        → apply_policy F r now (pos d) pod w ≡ (
          ok (record { requeue_after = pos (min_ℕ resync (d - (now - pod.creation_timestamp))) }),
          w,
        )
    unfolding apply_policy
    apply_policy_early h early =
        let left = d - (now - pod.creation_timestamp) in
        let some_left : leb_ℤ (pos left) (pos 0) ≡ false = ground arith in
        let dated : eqb pod.creation_timestamp 0 ≡ false = ground arith in
        rw (
          ltb_ℤ_pos d (omega arith),
          dated,
          sub64-time_since d now pod.creation_timestamp small past early,
          some_left,
          resync_after_lem resync d left resync_is h (omega arith) (omega arith),
        )

    -- Once a positive maximum duration below 2^63 is reached, for a pod with a creation time that
    -- is not after now, the pod is evicted, whatever its standing. Where this eviction succeeds, or
    -- the pod is gone, it is the only change, and no later look is asked for.
    pub apply_policy_overdue :
        (w' : W) (e : Result (Unit {0}))
        → d ≤ now - pod.creation_timestamp
        → 0 < d
        → r.client.evict pod w ≡ (e, w')
        → evicted e ≡ true
        → apply_policy F r now (pos d) pod w ≡ (ok done, w')
    unfolding apply_policy evict_overdue
    apply_policy_overdue w' e over hd h gone =
        let dated : eqb pod.creation_timestamp 0 ≡ false = ground arith in
        rw
          (
            ltb_ℤ_pos d hd,
            dated,
            sub64-time_since_over d now pod.creation_timestamp small past over,
            h,
          )
          (gone_lem e _ w' gone)
