-- ===== src/Controller/Rollout/Rounds/Settling.antt =====
-- What the steps of a round leave as it is, counted.
use mathlib.Core.List.{Perm, Nodup, perm_middle, sublist-append_right}
use mathlib.Core.List.Perm
use mathlib.Core.List.Nodup
use mathlib.Core.List.Sublist
use straggler.Base.{
  sym, filter_by-sublist, map-sublist, ℕ, ◌+◌, ◌<◌, ◌≡◌, refl, subst, List, [], ◌∷◌, ◌++◌, true,
  false, length, filter_by, filter_by-le, map, arith, Bool-cases, inl, inr,
}
use straggler.Base.Float.{FloatOps}
use straggler.Kube.{NamespacedName, Pod}
use straggler.Pacer.{Fits}
use straggler.Pacer.Composite.Counting.{uids}
use straggler.Blocker.{PodBlocker}
use straggler.Controller.Types.{PodClassification}
use straggler.Controller.Admission.{Admission}
use straggler.Controller.Reconciler.{Reconciler}
use straggler.Controller.Standing.Laws.{is_ready_pod, is_starting_pod, is_blocked_pod}
use straggler.Controller.Rollout.{World, starting_pods, ready_pods}
use straggler.Controller.Rollout.Rounds.{
  is_tracked, is_astray, blocked_pods, settle, Plays, IsSteady,
}
use straggler.Base.Counts.{filter_by_zero}

pub uids-map :
    (g : Pod → Pod) (ps : World) → ((p : Pod) → (g p).uid ≡ p.uid) → uids (map g ps) ≡ uids ps
uids-map g [] same = refl
uids-map g (p ∷ ps) same = cc (same p, uids-map g ps same)

pub uids-append : (xs ys : World) → uids (xs ++ ys) ≡ uids xs ++ uids ys
uids-append [] ys = refl
uids-append (x ∷ xs) ys = cc (uids-append xs ys)

pub three_kinds :
    (blocker : PodBlocker) (pods : World)
    → blocked_pods blocker pods + (ready_pods blocker pods + starting_pods blocker pods)
      ≡ length pods
three_kinds blocker [] = omega arith
three_kinds blocker (p ∷ pods) = ground (arith, three_kinds blocker pods)

pub standing-Fits :
    (blocker : PodBlocker) (pods : World)
    → length pods < 0x20_0000_0000_0000
    → Fits (record {
      ready = filter_by (is_ready_pod blocker) pods;
      starting = filter_by (is_starting_pod blocker) pods;
      blocked = filter_by (is_blocked_pod blocker) pods;
    })
standing-Fits blocker pods room = record {
  ready_fits = omega (arith, room, filter_by-le (is_ready_pod blocker) pods);
  starting_fits = omega (arith, room, filter_by-le (is_starting_pod blocker) pods);
  blocked_fits = omega (arith, room, filter_by-le (is_blocked_pod blocker) pods);
}

module _ (a : Admission World) (r : Reconciler World) (group : PodClassification)
    (start_up : Pod → Pod)
    (becomes_ready : (p : Pod)
      → is_starting_pod a.pod_blocker p ≡ true
      → is_ready_pod a.pod_blocker (start_up p) ≡ true) where
  pub settle_blocked :
      (p : Pod)
      → is_blocked_pod a.pod_blocker (settle a r group start_up p) ≡ is_blocked_pod a.pod_blocker p
  settle_blocked p = elim (Bool-cases (is_starting_pod a.pod_blocker p)) [
    | inl starts ↦ ground (arith, starts, becomes_ready p starts)
    | inr other ↦ rw other refl
  ]

  pub settle_starting :
      (p : Pod) → is_starting_pod a.pod_blocker (settle a r group start_up p) ≡ false
  settle_starting p = elim (Bool-cases (is_starting_pod a.pod_blocker p)) [
    | inl starts ↦ ground (arith, starts, becomes_ready p starts)
    | inr other ↦ ground (arith, other)
  ]

  pub settle_astray :
      (p : Pod) → is_astray a r group (settle a r group start_up p) ≡ is_astray a r group p
  settle_astray p = elim (Bool-cases (is_starting_pod a.pod_blocker p)) [
    | inl starts ↦ ground (arith, starts, becomes_ready p starts)
    | inr other ↦ rw other refl
  ]

  pub settle_uid :
      ((p : Pod) → (start_up p).uid ≡ p.uid) → (p : Pod) → (settle a r group start_up p).uid ≡ p.uid
  settle_uid same p = ground (arith, same p)

-- The pod of a round that is asked about is one that the reconciler looks at.
pub Plays-tracked :
    {a : Admission World} {r : Reconciler World} {group : PodClassification} {F : FloatOps}
    {now : ℕ} {request : NamespacedName} {news : List Pod} {start_up : Pod → Pod} {pods : World}
    (steady : IsSteady a r group pods) (plays : Plays a r group F now request news start_up pods)
    → is_tracked a r group plays.pod ≡ true
Plays-tracked {a} {r} {group} steady plays =
    let waits : is_blocked_pod a.pod_blocker plays.pod ≡ true = plays.waits in
    let known : is_astray a r group plays.pod ≡ false =
      filter_by_zero (is_astray a r group) plays.front plays.pod plays.back (
        subst (λ w. length (filter_by (is_astray a r group) w) ≡ 0) plays.listed
          steady.none_astray) in
    ground (arith, known, waits)

-- The blocked pods have distinct UIDs where all pods have.
pub blocked_distinct :
    (blocker : PodBlocker) (pods : World)
    → Nodup (uids pods)
    → Nodup (uids (filter_by (is_blocked_pod blocker) pods))
blocked_distinct blocker pods d =
    Nodup.sublist (map-sublist (λ p. p.uid) (filter_by-sublist _ pods)) d

-- New pods and the stored ones have distinct UIDs.
abbrev pub AreApart : List Pod → World → Type 0
AreApart ps pods = Nodup (uids ps ++ uids pods)

pub first_apart : (p : Pod) (ps pods : World) → AreApart (p ∷ ps) pods → Nodup (uids (p ∷ pods))
first_apart p ps pods apart =
    Nodup.sublist (Sublist.cons-cons p.uid (sublist-append_right (uids ps) (uids pods))) apart

pub rest_apart :
    (p x : Pod) (ps pods : World) → x.uid ≡ p.uid → AreApart (p ∷ ps) pods → AreApart ps (x ∷ pods)
rest_apart p x ps pods same apart =
    Perm.nodup
      (Perm.symm (
        subst (λ u. Perm (uids ps ++ u ∷ uids pods) (p.uid ∷ (uids ps ++ uids pods))) (sym same)
          (perm_middle (uids ps) (uids pods))))
      apart
