-- ===== src/Pacer/Linear/Laws.antt =====
-- What the linear pacer guarantees: a step is never crossed by what one call allows.
use Prim.Native.Nat.{min as min_ℕ}
use mathlib.Core.List.{Sublist, nil-sublist}
use mathlib.Core.List.Perm
use mathlib.Core.List.Sublist
use straggler.Base.{
  ℕ, suc, ◌+◌, ◌-◌, ◌*◌, ◌/◌, ◌%◌, ◌<◌, ◌≤◌, ◌≡◌, ◌≢◌, ◌↔◌, refl, List, [], arith, length, take,
  leb, true, false, String, Bool-cases, inl, inr, length-take, take-sublist, ltb, ltb→lt, lt→ltb,
  if◌then◌else◌,
}
use straggler.Base.Int.{ℤ, pos, negsuc, sub64, rem64, leb_ℤ, eqb_ℤ}
use straggler.Base.Float.{FloatOps, IsIeee, min_exact}
use straggler.Base.Result.{ok, panic}
use straggler.Kube.{Pod}
use straggler.Pacer.Slice.{slice_to_within}
use straggler.Pacer.{PodClassification, Fits, Meets}
use straggler.Pacer.Linear.{Config, pace, new}

-- The pods that are missing to the next multiple of the step.
pub sub64-rem64 :
    (r k : ℕ)
    → suc k < 0x8000_0000_0000_0000
    → sub64 (pos (suc k)) (rem64 (pos r) (pos (suc k))) ≡ pos (suc k - r % suc k)
unfolding sub64 rem64
sub64-rem64 r k h = grind arith

sub64-rem64_negative :
    (r k : ℕ)
    → suc k ≤ 0x4000_0000_0000_0000
    → sub64 (negsuc k) (rem64 (pos r) (negsuc k)) ≡ negsuc (k + r % suc k)
unfolding sub64 rem64
sub64-rem64_negative r k h = grind arith

pos_above : (a : ℤ) (s : ℕ) → leb_ℤ a (pos s) ≡ false → (n : ℕ) × (a ≡ pos n) × (s < n)
pos_above (pos n) s h = (n, refl, ground arith)
pos_above (negsuc n) s h = absurd (ground arith)

eqb_ℤ→eq : (a : ℤ) → eqb_ℤ a (pos 0) ≡ true → a ≡ pos 0
eqb_ℤ→eq a h = ground arith

module _ {F : FloatOps} (I : IsIeee F) where
  module _ (config : Config) (c : PodClassification) (fits : Fits c) where
    abbrev pub gap : ℤ
    gap = sub64 config.step (rem64 (pos (length c.ready)) config.step)

    pace_waits :
        leb_ℤ config.max_stagger (pos (length c.ready)) ≡ false
        → eqb_ℤ config.step (pos 0) ≡ false
        → leb_ℤ gap (pos (length c.starting)) ≡ true
        → pace F config c ≡ ok ([], c.blocked)
    unfolding pace
    pace_waits below nz wait = rw (below, nz, wait)

    pub pace_allows :
        (n : ℕ)
        → leb_ℤ config.max_stagger (pos (length c.ready)) ≡ false
        → eqb_ℤ config.step (pos 0) ≡ false
        → gap ≡ pos n
        → length c.starting < n
        → pace F config c ≡ ok (take (min_ℕ (length c.blocked) n) c.blocked, c.blocked)
    unfolding pace
    pace_allows n below nz e more =
        let some_left : leb (n + 0) (length c.starting + 0) ≡ false = ground arith in
        rw (
          below,
          nz,
          e,
          some_left,
          min_exact I (length c.blocked) n fits.blocked_fits,
          slice_to_within (min_ℕ (length c.blocked) n) c.blocked (omega arith),
        )

    pace_zero_step :
        leb_ℤ config.max_stagger (pos (length c.ready)) ≡ false
        → eqb_ℤ config.step (pos 0) ≡ true
        → pace F config c ≡ panic
    unfolding pace
    pace_zero_step below z = rw (below, z)

    pace_over :
        leb_ℤ config.max_stagger (pos (length c.ready)) ≡ true
        → pace F config c ≡ ok (c.blocked, c.blocked)
    unfolding pace
    pace_over over = rw over

    pace_below-Serves :
        leb_ℤ config.max_stagger (pos (length c.ready)) ≡ false
        → eqb_ℤ config.step (pos 0) ≡ false
        → (allowed : List Pod) × (pace F config c ≡ ok (allowed, c.blocked))
          × Sublist allowed c.blocked
    pace_below-Serves below nz = elim (Bool-cases (leb_ℤ gap (pos (length c.starting)))) [
      | inl wait ↦ ([], pace_waits below nz wait, nil-sublist c.blocked)
      | inr more ↦
          let (n, e, h) = pos_above gap (length c.starting) more in
          (
            take (min_ℕ (length c.blocked) n) c.blocked,
            pace_allows n below nz e h,
            take-sublist (min_ℕ (length c.blocked) n) c.blocked,
          )
    ]

    -- For groups whose sizes fit, the call panics exactly when the step is 0 and fewer than
    -- `max_stagger` pods are ready.
    pub pace-eq-panic_iff :
        (pace F config c ≡ panic)
        ↔ ((leb_ℤ config.max_stagger (pos (length c.ready)) ≡ false) × (config.step ≡ pos 0))
    pace-eq-panic_iff = (
      λ e. elim (Bool-cases (leb_ℤ config.max_stagger (pos (length c.ready)))) [
        | inl over ↦ absurd (cc (pace_over over))
        | inr below ↦ (
          below,
          elim (Bool-cases (eqb_ℤ config.step (pos 0))) [
            | inl z ↦ eqb_ℤ→eq config.step z
            | inr nz ↦ let (allowed, served, _) = pace_below-Serves below nz in absurd (cc)
          ],
        )
      ],
      λ h. pace_zero_step h.0 (rw h.1),
    )

    -- For groups whose sizes fit, with fewer than `max_stagger` pods ready and a step of `suc k`
    -- below 2^63, the pacer allows nothing while as many pods are starting as are missing to the
    -- next multiple of the step above the ready pods, and otherwise as many as are missing, as far
    -- as blocked pods are left. The slice keeps its order.
    pub pace-fills_step :
        (k : ℕ)
        → leb_ℤ config.max_stagger (pos (length c.ready)) ≡ false
        → config.step ≡ pos (suc k)
        → suc k < 0x8000_0000_0000_0000
        → (allowed : List Pod) × (pace F config c ≡ ok (allowed, c.blocked))
          × Sublist allowed c.blocked
          × (length allowed ≡ (
              if ltb (length c.starting) (suc k - length c.ready % suc k)
              then min_ℕ (length c.blocked) (suc k - length c.ready % suc k)
              else 0))
    pace-fills_step k below e h =
        let n = suc k - length c.ready % suc k in
        let gap_n : gap ≡ pos n = rw e (sub64-rem64 (length c.ready) k h) in
        let nz : eqb_ℤ config.step (pos 0) ≡ false = rw e (ground arith) in
        elim (Bool-cases (ltb (length c.starting) n)) [
          | inl more ↦ (
            take (min_ℕ (length c.blocked) n) c.blocked,
            pace_allows n below nz gap_n (ltb→lt _ _ more),
            take-sublist (min_ℕ (length c.blocked) n) c.blocked,
            rw more (length-take (min_ℕ (length c.blocked) n) c.blocked (omega arith)),
          )
          | inr wait ↦
              let waits : leb_ℤ gap (pos (length c.starting)) ≡ true = rw gap_n (ground arith) in
              ([], pace_waits below nz waits, nil-sublist c.blocked, rw wait refl)
        ]

    -- For groups whose sizes fit, with fewer than `max_stagger` pods ready and a negative step not
    -- below -2^62, nothing is allowed, however many pods are ready or starting.
    pub pace_negative_step :
        (k : ℕ)
        → leb_ℤ config.max_stagger (pos (length c.ready)) ≡ false
        → config.step ≡ negsuc k
        → suc k ≤ 0x4000_0000_0000_0000
        → pace F config c ≡ ok ([], c.blocked)
    pace_negative_step k below e h =
        let gap_m : gap ≡ negsuc (k + length c.ready % suc k) =
          rw e (sub64-rem64_negative (length c.ready) k h) in
        pace_waits below (rw e (ground arith)) (rw gap_m (ground arith))

  module _ (config : Config) (c : PodClassification) (fits : Fits c) (k : ℕ)
      (below : leb_ℤ config.max_stagger (pos (length c.ready)) ≡ false)
      (step : config.step ≡ pos (suc k)) (small : suc k < 0x8000_0000_0000_0000) where
    -- For groups whose sizes fit, with fewer than `max_stagger` pods ready and a step of `suc k`
    -- below 2^63: what one call allows, together with the ready pods, does not cross the next
    -- multiple of the step.
    pub pace_within_step :
        (allowed : List Pod) (blocked : List Pod)
        → pace F config c ≡ ok (allowed, blocked)
        → length c.ready + length allowed ≤ (length c.ready / suc k + 1) * suc k
    pace_within_step allowed blocked e =
        let (xs, served, _, count) = pace-fills_step config c fits k below step small in
        let same : length allowed ≡ length xs = ground (arith, e, served) in
        rw (same, count) (grind arith)

    -- For groups whose sizes fit, with fewer than `max_stagger` pods ready and a step of `suc k`
    -- below 2^63: if some pods are starting, but fewer than are missing to the next multiple of the
    -- step, and as many as are missing are blocked, then more pods are ready, starting or allowed
    -- after the call than that multiple.
    pub pace_overshoots :
        (allowed : List Pod) (blocked : List Pod)
        → pace F config c ≡ ok (allowed, blocked)
        → 0 < length c.starting
        → length c.starting < suc k - length c.ready % suc k
        → suc k - length c.ready % suc k ≤ length c.blocked
        → (length c.ready / suc k + 1) * suc k < length c.ready + length c.starting + length allowed
    pace_overshoots allowed blocked e some_starting fewer enough =
        let (xs, served, _, count) = pace-fills_step config c fits k below step small in
        let same : length allowed ≡ length xs = ground (arith, e, served) in
        rw (same, count, lt→ltb _ _ fewer) (grind arith)

  -- With a step other than 0, and for groups whose sizes fit, the pacer returns without an error or a
  -- panic, and allows blocked pods only.
  pub new_linear-IsLawful :
      (key : String) (config : Config)
      → config.step ≢ pos 0
      → (c : PodClassification) → Fits c
      → Meets (new F key config) c
  unfolding new
  new_linear-IsLawful key config nonzero c fits =
      elim (Bool-cases (leb_ℤ config.max_stagger (pos (length c.ready)))) [
        | inl over ↦ (
          c.blocked,
          c.blocked,
          pace_over config c fits over,
          record { same_pods = Perm.refl c.blocked; from_blocked = Sublist.refl c.blocked },
        )
        | inr below ↦ elim (Bool-cases (eqb_ℤ config.step (pos 0))) [
          | inl z ↦ absurd (nonzero (eqb_ℤ→eq config.step z))
          | inr nz ↦
              let (allowed, served, sub) = pace_below-Serves config c fits below nz in
              (
                allowed,
                c.blocked,
                served,
                record { same_pods = Perm.refl c.blocked; from_blocked = sub },
              )
        ]
      ]
