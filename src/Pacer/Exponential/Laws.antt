-- ===== src/Pacer/Exponential/Laws.antt =====
-- What the exponential pacer guarantees: its total, what it leaves in flight, and whom it serves
-- first.
use Prim.Native.Nat.{min as min_ℕ}
use mathlib.Core.List.{Perm}
use mathlib.Core.List.Perm
use mathlib.Core.List.Sublist
use straggler.Base.{
  ℕ, zero, suc, ◌-◌, ◌<◌, ◌≤◌, ◌≡◌, refl, List, ◌++◌, arith, length, take, drop, ltb, Bool, false,
  String, Bool-cases, inl, inr, length-take, take-sublist, take-append-drop, All,
}
use straggler.Base.Int.{ℤ, pos, negsuc, sub64, leb_ℤ, eqb_ℤ}
use straggler.Base.Float.{FloatOps}
use straggler.Base.Result.{ok}
use straggler.Base.Sorting.{IsSort, Ascending-take, length-perm}
use straggler.Kube.{Pod}
use straggler.Pacer.Slice.{slice_to_within}
use straggler.Pacer.{PodClassification, Fits, Meets}
use straggler.Pacer.Exponential.{max, min, Config, calculate_allowed_count, pace, new}

max-sub64 :
    (t s : ℕ)
    → t < 0x8000_0000_0000_0000
    → s < 0x8000_0000_0000_0000
    → max (pos 0) (sub64 (pos t) (pos s)) ≡ pos (t - s)
unfolding max sub64
max-sub64 t s ht hs = ground arith

min_pos : (a b : ℕ) → min (pos a) (pos b) ≡ pos (min_ℕ a b)
unfolding min
min_pos a b = ground arith

max_nonneg : (x : ℤ) → (m : ℕ) × (max (pos 0) x ≡ pos m)
unfolding max
max_nonneg (pos n) = (n, ground arith)
max_nonneg (negsuc n) = (0, ground arith)

clamp_bounds : (x : ℤ) (b : ℕ) → (k : ℕ) × (min (max (pos 0) x) (pos b) ≡ pos k) × (k ≤ b)
clamp_bounds x b = let (m, e) = max_nonneg x in (min_ℕ m b, rw e (min_pos m b), omega arith)

module _ (F : FloatOps) where
  open F use {of_int, to_int, mul, ceil}

  -- The number of pods that may be starting while `ready` pods are ready.
  abbrev pub target : Config F → ℕ → ℤ
  target config zero = config.min_initial
  target config (suc r) = to_int (ceil (mul (of_int (pos (suc r))) config.multiplier))

  pub calculate_allowed_count_lem :
      (config : Config F) (r s b t : ℕ)
      → target config r ≡ pos t
      → t < 0x8000_0000_0000_0000
      → s < 0x8000_0000_0000_0000
      → calculate_allowed_count F (pos r) (pos s) (pos b) config.min_initial config.multiplier
        ≡ pos (min_ℕ (t - s) b)
  unfolding calculate_allowed_count
  calculate_allowed_count_lem config zero s b t e ht hs =
      rw (e, max-sub64 t s ht hs) (min_pos (t - s) b)
  calculate_allowed_count_lem config (suc r) s b t e ht hs =
      ground (arith, e, max-sub64 t s ht hs, min_pos (t - s) b)

  -- Whatever the configuration, the number is at least 0 and at most that of the blocked pods.
  calculate_allowed_count_bounds :
      (config : Config F) (r s : ℤ) (b : ℕ)
      → (k : ℕ) × (calculate_allowed_count F r s (pos b) config.min_initial config.multiplier
          ≡ pos k)
        × (k ≤ b)
  unfolding calculate_allowed_count
  calculate_allowed_count_bounds config r s b = elim (Bool-cases (eqb_ℤ r (pos 0))) [
    | inl z ↦ let (k, e, h) = clamp_bounds (sub64 config.min_initial s) b in (k, rw z e, h)
    | inr nz ↦
        let (k, e, h) =
          clamp_bounds (sub64 (to_int (ceil (mul (of_int r) config.multiplier))) s) b in
        (k, rw nz e, h)
  ]

  module _ {sort : (Pod → Pod → Bool) → List Pod → List Pod} (S : IsSort sort) where
    abbrev pub oldest_first : List Pod → List Pod
    oldest_first = sort (λ a b. ltb a.creation_timestamp b.creation_timestamp)

    length-oldest_first : (xs : List Pod) → length (oldest_first xs) ≡ length xs
    length-oldest_first xs = length-perm (S.permutes _ xs)

    pub pace_below :
        (config : Config F) (c : PodClassification) (k : ℕ)
        → leb_ℤ config.max_stagger (pos (length c.ready)) ≡ false
        → calculate_allowed_count F
            (pos (length c.ready))
            (pos (length c.starting))
            (pos (length c.blocked))
            config.min_initial
            config.multiplier
          ≡ pos k
        → k ≤ length c.blocked
        → pace F sort config c ≡ ok (take k (oldest_first c.blocked), oldest_first c.blocked)
    unfolding pace
    pace_below config c k below e h =
        let within : k ≤ length (oldest_first c.blocked) =
          omega (arith, length-oldest_first c.blocked) in
        rw (below, e, slice_to_within k (oldest_first c.blocked) within)

    -- For groups whose sizes fit, with fewer than `max_stagger` pods ready, and a target that is
    -- not negative and below 2^63, the pacer fills up the pods that are starting to the target, as
    -- far as blocked pods are left. The pods that it allows are no younger than those that it
    -- keeps, and no blocked pod is lost.
    pub pace-fills_target :
        (config : Config F) (c : PodClassification) (t : ℕ)
        → Fits c
        → leb_ℤ config.max_stagger (pos (length c.ready)) ≡ false
        → target config (length c.ready) ≡ pos t
        → t < 0x8000_0000_0000_0000
        → (allowed : List Pod) × (kept : List Pod) × (pace F sort config c
            ≡ ok (allowed, allowed ++ kept))
          × Perm (allowed ++ kept) c.blocked
          × (length allowed ≡ min_ℕ (t - length c.starting) (length c.blocked))
          × All (λ a. All (λ k. a.creation_timestamp ≤ k.creation_timestamp) kept) allowed
    pace-fills_target config c t fits below e ht =
        let n = min_ℕ (t - length c.starting) (length c.blocked) in
        let xs = oldest_first c.blocked in
        let count =
          calculate_allowed_count_lem config (length c.ready) (length c.starting) (length c.blocked)
            t e ht fits.starting_fits in
        let whole = take-append-drop n xs in
        (
          take n xs,
          drop n xs,
          rw whole (pace_below config c n below count (omega arith)),
          rw whole (S.permutes _ c.blocked),
          length-take n xs (omega (arith, length-oldest_first c.blocked)),
          Ascending-take (λ p. p.creation_timestamp) n xs
              (S.orders (λ p. p.creation_timestamp) c.blocked),
        )

    -- For groups whose sizes fit, the pacer returns without an error or a panic, and allows blocked
    -- pods only.
    pub new_exponential-IsLawful :
        (key : String) (config : Config F) (c : PodClassification)
        → Fits c
        → Meets (new F sort key config) c
    unfolding new pace
    new_exponential-IsLawful key config c fits =
        elim (Bool-cases (leb_ℤ config.max_stagger (pos (length c.ready)))) [
          | inl over ↦ (
            c.blocked,
            c.blocked,
            rw over refl,
            record { same_pods = Perm.refl c.blocked; from_blocked = Sublist.refl c.blocked },
          )
          | inr below ↦
              let (k, e, h) =
                calculate_allowed_count_bounds config (pos (length c.ready))
                  (pos (length c.starting)) (length c.blocked) in
              (
                take k (oldest_first c.blocked),
                oldest_first c.blocked,
                pace_below config c k below e h,
                record {
                  same_pods = S.permutes _ c.blocked;
                  from_blocked = take-sublist k (oldest_first c.blocked);
                },
              )
        ]
