-- ===== src/Controller/Standing/Laws.antt =====
-- The standing of a group: every pod has exactly one.
use mathlib.Core.List.{Perm, perm_middle, append-nil, append_assoc}
use mathlib.Core.List.Perm
use straggler.Base.{◌≡◌, refl, List, [], ◌∷◌, ◌++◌, Bool, not, ◌&&◌, filter_by, arith, String}
use straggler.Base.Result.{ok}
use straggler.Kube.{Pod}
use straggler.Blocker.{PodBlocker}
use straggler.Controller.Types.{Client}
use straggler.Controller.Standing.{is_pod_ready, classify_pods, classify_pod_group}

module _ (blocker : PodBlocker) where
  abbrev pub is_blocked_pod : Pod → Bool
  is_blocked_pod pod = blocker.is_blocked pod.spec

  abbrev pub is_ready_pod : Pod → Bool
  is_ready_pod pod = not (blocker.is_blocked pod.spec) && is_pod_ready pod

  abbrev pub is_starting_pod : Pod → Bool
  is_starting_pod pod = not (blocker.is_blocked pod.spec) && not (is_pod_ready pod)

  classify_pods_lem :
      (pods ready starting blocked : List Pod)
      → classify_pods blocker pods ready starting blocked ≡ (
        ready ++ filter_by is_ready_pod pods,
        starting ++ filter_by is_starting_pod pods,
        blocked ++ filter_by is_blocked_pod pods,
      )
  unfolding classify_pods
  classify_pods_lem [] ready starting blocked =
      rw (append-nil ready, append-nil starting, append-nil blocked)
  classify_pods_lem (pod ∷ pods) ready starting blocked = ground (
    arith,
    classify_pods_lem pods ready starting (blocked ++ pod ∷ []),
    classify_pods_lem pods (ready ++ pod ∷ []) starting blocked,
    classify_pods_lem pods ready (starting ++ pod ∷ []) blocked,
    append_assoc ready (pod ∷ []) (filter_by is_ready_pod pods),
    append_assoc starting (pod ∷ []) (filter_by is_starting_pod pods),
    append_assoc blocked (pod ∷ []) (filter_by is_blocked_pod pods),
  )

  pub filters-perm :
      (pods : List Pod)
      → Perm pods (
          filter_by is_blocked_pod pods
          ++ (filter_by is_ready_pod pods ++ filter_by is_starting_pod pods))
  filters-perm [] = Perm.nil
  filters-perm (pod ∷ pods) =
      let b = filter_by is_blocked_pod pods in
      let r = filter_by is_ready_pod pods in
      let s = filter_by is_starting_pod pods in
      let rest = Perm.cons pod (filters-perm pods) in
      ground (
        arith,
        rest,
        Perm.trans rest (Perm.symm (perm_middle b (r ++ s))),
        Perm.trans rest (
            Perm.trans (Perm.symm (perm_middle b (r ++ s)))
              (Perm.append_left b (Perm.symm (perm_middle r s)))),
      )

  module _ {W : Type 0} (client : Client W) (group_label : String) where
    -- When the list of the group's pods is read, its pods fall into the blocked ones, those that are
    -- ready and not blocked, and the others, each part in the order of the list, and no pod is left
    -- out or counted twice.
    pub classify_pod_group-partition :
        (group_id : String) (w w' : W) (pods : List Pod)
        → client.list group_label group_id w ≡ (ok pods, w')
        → (ready : List Pod) × (starting : List Pod) × (blocked : List Pod) × (classify_pod_group
              client blocker group_label group_id w
            ≡ (ok (ready, starting, blocked), w'))
          × (ready ≡ filter_by is_ready_pod pods)
          × (starting ≡ filter_by is_starting_pod pods)
          × (blocked ≡ filter_by is_blocked_pod pods)
          × Perm pods (blocked ++ (ready ++ starting))
    unfolding classify_pod_group
    classify_pod_group-partition group_id w w' pods e = (
      filter_by is_ready_pod pods,
      filter_by is_starting_pod pods,
      filter_by is_blocked_pod pods,
      rw (e, classify_pods_lem pods [] [] []) refl,
      refl,
      refl,
      refl,
      filters-perm pods,
    )
