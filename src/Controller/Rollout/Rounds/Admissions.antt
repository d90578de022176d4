-- ===== src/Controller/Rollout/Rounds/Admissions.antt =====
-- The second half of a round: what the webhook makes of the new pods.
use mathlib.Core.List.{Nodup, Mem, mem-cons, not-mem-nil}
use mathlib.Core.Logic.Or
use mathlib.Core.Bool.{Bool-set}
use straggler.Pacer.Composite.Counting.{uids}
use straggler.Base.{
  filter_by-sublist, ℕ, ◌<◌, ◌≡◌, ◌≢◌, refl, sym, ap, subst, List, [], ◌∷◌, ◌++◌, String, some,
  true, false, length, filter_by, All, arith, Bool-cases, inl, inr, string_eq, ltb, ltb→lt, eqb,
}
use straggler.Base.Dict.{Dict, get_key, insert, lookup-insert, entries}
use straggler.Kube.{Pod, PodSpec}
use straggler.Pacer.{IsLawful}
use straggler.Pacer.Progress.{IsProgressive}
use straggler.Controller.Types.{Client, PodClassification}
use straggler.Controller.Admission.{
  Admission, check_enabled, is_same_pod, lets_through, handle_pod_admission,
  default_staggered_pod_label,
}
use straggler.Controller.Admission.Decision.{labelled, handle_pod_admission-lets_through}
use straggler.Controller.Reconciler.{Reconciler}
use straggler.Controller.Standing.Laws.{is_ready_pod, is_starting_pod, is_blocked_pod}
use straggler.Controller.Rollout.{World, IsCluster, starting_pods}
use straggler.Controller.Rollout.Laws.{distinct_blocked, group-Fits, standing_of}
use straggler.Controller.Rollout.Rounds.{IsPrompt, IsFresh, is_tracked, is_astray, stored, store}
use straggler.Base.Counts.{empty_of_length}

-- The webhook knows the pod again among those that the pacer allows.
is_same_pod_refl : (q : Pod) → is_same_pod q q ≡ true
unfolding is_same_pod
is_same_pod_refl q = ground arith

lets_through-mem : (q : Pod) (allowed : List Pod) → Mem q allowed → lets_through q allowed ≡ true
unfolding lets_through
lets_through-mem q [] m = absurd (not-mem-nil m)
lets_through-mem q (x ∷ xs) m =
    Or.elim (Bool-set _ _) (mem-cons.0 m) (λ e. rw (← e) (rw (is_same_pod_refl q) refl))
      (λ later. let rest = lets_through-mem q xs later in ground (arith, rest))

length-insert : (k v : String) (d : Dict String String) → eqb (length (insert k v d)) 0 ≡ false
unfolding insert
length-insert k v [] = refl
length-insert k v ((j, w) ∷ d) = ground arith

check_enabled-labelled :
    (k v label : String) (p : Pod)
    → k ≢ label
    → check_enabled label p.meta ≡ true
    → check_enabled label (labelled k v p).meta ≡ true
unfolding check_enabled
check_enabled-labelled k v label p differ on = ground (
  arith,
  on,
  length-insert k v (entries p.labels),
  lookup-insert label k v (entries p.labels),
  differ,
)

module _ {a : Admission World} {r : Reconciler World} {group : PodClassification}
    {client : Client World} {group_label : String}
    (cluster : IsCluster a r group client group_label) (prompt : IsPrompt a r group) where
  tracked_of :
      (p : Pod) (v : String)
      → check_enabled r.enable_label p.meta ≡ true
      → get_key default_staggered_pod_label p.labels ≡ some v
      → get_key r.stagger_group_id_label p.labels ≡ some group.id
      → ltb 0 p.creation_timestamp ≡ true
      → is_tracked a r group p ≡ true
  tracked_of p v on marked member late = ground (arith, on, marked, member, late)

  -- A pod that the webhook has held is tracked once it is stored.
  held_tracked :
      (now : ℕ) (p : Pod) (spec : PodSpec)
      → check_enabled a.enable_label p.meta ≡ true
      → is_tracked a r group (
          stored a r group now
            (record (labelled default_staggered_pod_label "1"
              (labelled a.stagger_group_id_label group.id p)) { spec = spec }))
        ≡ true
  unfolding check_enabled
  held_tracked now p spec on =
      let id = group.id in
      let g = labelled a.stagger_group_id_label id p in
      let on_g : check_enabled r.enable_label g.meta ≡ true =
        check_enabled-labelled a.stagger_group_id_label id r.enable_label p
          (subst (λ l. l ≢ r.enable_label) (sym prompt.same_group) prompt.enable_group)
          (subst (λ l. check_enabled l p.meta ≡ true) prompt.same_enable on) in
      let on_m =
        check_enabled-labelled default_staggered_pod_label "1" r.enable_label g prompt.enable_mark
          on_g in
      let mark =
        lookup-insert default_staggered_pod_label default_staggered_pod_label "1"
          (entries g.labels) in
      let member =
        lookup-insert r.stagger_group_id_label default_staggered_pod_label "1" (entries g.labels) in
      let member' =
        lookup-insert r.stagger_group_id_label a.stagger_group_id_label id (entries p.labels) in
      tracked_of
        (stored a r group now (record (labelled default_staggered_pod_label "1" g) { spec = spec }))
        "1" on_m (ground (arith, mark))
        (ground (arith, member, member', prompt.group_mark, prompt.same_group)) (ground arith)

  -- Where no blocked pod is astray, all of them have been stored.
  older_blocked :
      (t : ℕ) (pods : World)
      → t ≡ 0
      → length (filter_by (is_astray a r group) pods) ≡ 0
      → All (λ b. t < b.creation_timestamp) (filter_by (is_blocked_pod a.pod_blocker) pods)
  older_blocked t [] e none_astray = tt
  older_blocked t (x ∷ pods) e none_astray = elim (Bool-cases (is_blocked_pod a.pod_blocker x)) [
    | inr other ↦ rw other (older_blocked t pods e (ground (arith, none_astray, other)))
    | inl waits ↦
        let (late, rest) = first_tracked x pods waits none_astray in
        rw waits (late_stored x late, older_blocked t pods e rest)
  ]
    where
      first_tracked :
          (x : Pod) (pods : World)
          → is_blocked_pod a.pod_blocker x ≡ true
          → length (filter_by (is_astray a r group) (x ∷ pods)) ≡ 0
          → (is_tracked a r group x ≡ true) × (length (filter_by (is_astray a r group) pods) ≡ 0)
      first_tracked x pods waits h = elim (Bool-cases (is_tracked a r group x)) [
        | inl on ↦ (on, ground (arith, h, on, waits))
        | inr off ↦ absurd (ground (arith, h, off, waits))
      ]

      late_stored : (x : Pod) → is_tracked a r group x ≡ true → t < x.creation_timestamp
      late_stored x on =
          let after : ltb 0 x.creation_timestamp ≡ true = ground (arith, on) in
          omega (arith, e, ltb→lt _ _ after)

  module _ (lawful : IsLawful group.pacer) (progressive : IsProgressive group.pacer) (now : ℕ)
      (p : Pod) (pods : World) (fresh : IsFresh a r group p)
      (room : length pods < 0x20_0000_0000_0000) (own_uid : Nodup (uids (p ∷ pods)))
      (none_astray : length (filter_by (is_astray a r group) pods) ≡ 0) where
    -- A fresh pod is stored in front of the others, not astray, and not blocked where no pod is
    -- starting.
    pub admit_one :
        (x : Pod) × (store a r group now (handle_pod_admission a (p, pods)) ≡ x ∷ pods)
        × (x.uid ≡ p.uid)
        × (is_astray a r group x ≡ false)
        × (starting_pods a.pod_blocker pods ≡ 0 → is_blocked_pod a.pod_blocker x ≡ false)
    admit_one =
        let q = labelled a.stagger_group_id_label group.id p in
        let (waited, wait, calm) = cluster.waits q.meta pods in
        let ready = filter_by (is_ready_pod a.pod_blocker) pods in
        let starting = filter_by (is_starting_pod a.pod_blocker) pods in
        let blocked = filter_by (is_blocked_pod a.pod_blocker) pods in
        let fits = group-Fits cluster q pods room in
        let (allowed, left, answer, _) =
          lawful (record { ready = ready; starting = starting; blocked = blocked ++ q ∷ [] })
            fits in
        elim (handle_pod_admission-lets_through a p pods fresh.enabled fresh.no_job group pods
          (fresh.in_group pods) waited pods wait calm ready starting blocked pods
          (standing_of cluster pods) cluster.blocks allowed left answer) [
            | inl (through, e) ↦ (
              stored a r group now q,
              ap (store a r group now) e,
              refl,
              rw fresh.unblocked refl,
              λ _. fresh.unblocked,
            )
            | inr (held, (spec, waits, e)) ↦ (
              stored a r group now
                  (record (labelled default_staggered_pod_label "1" q) { spec = spec }),
              ap (store a r group now) e,
              refl,
              rw (waits, held_tracked now p spec fresh.enabled) refl,
              λ none. absurd (
                  let through = lets_through-mem q allowed (
                    progressive.prefers
                      (record { ready = ready; starting = starting; blocked = blocked ++ q ∷ [] })
                      blocked q fits
                      (distinct_blocked q blocked pods (filter_by-sublist _ pods) own_uid)
                      (empty_of_length starting none) refl
                      (older_blocked p.creation_timestamp pods fresh.unstored none_astray) allowed
                      left answer) in
                  cc (held, through)),
            )
          ]
