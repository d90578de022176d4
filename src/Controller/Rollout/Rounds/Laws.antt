-- ===== src/Controller/Rollout/Rounds/Laws.antt =====
-- A rollout in rounds: every round leaves fewer pods blocked, and so all pods become ready.
use mathlib.Core.List.{Perm, Nodup, perm_middle}
use mathlib.Core.List.Perm
use straggler.Base.{
  ℕ, suc, ◌+◌, ◌-◌, ◌≤◌, ◌<◌, ◌≡◌, ◌≢◌, ◌∙◌, refl, sym, subst, List, [], ◌∷◌, ◌++◌, String, true,
  length, filter_by, All, map, arith,
}
use straggler.Base.Float.{FloatOps}
use straggler.Kube.{NamespacedName, Pod}
use straggler.Pacer.{IsLawful}
use straggler.Pacer.Progress.{IsProgressive}
use straggler.Pacer.Composite.Counting.{uids}
use straggler.Controller.Types.{Client, PodClassification}
use straggler.Controller.Admission.{Admission}
use straggler.Controller.Reconciler.{Reconciler, reconcile}
use straggler.Controller.Standing.Laws.{is_ready_pod, is_starting_pod, is_blocked_pod}
use straggler.Controller.Rollout.{World, IsCluster, starting_pods, ready_pods}
use straggler.Controller.Rollout.Rounds.{
  IsPrompt, IsFresh, is_astray, blocked_pods, admit_all, settle, round, Plays, idle, play, Rounds,
  begin, next, IsSteady,
}
use straggler.Controller.Rollout.Rounds.Evictions.{evicts_each, evicts_only_blocked, evicts_only}
use straggler.Controller.Rollout.Rounds.Admissions.{admit_one}
use straggler.Controller.Rollout.Rounds.Settling.{
  uids-map, uids-append, blocked_distinct, AreApart, first_apart, rest_apart, three_kinds,
  standing-Fits, settle_blocked, settle_starting, settle_astray, settle_uid, Plays-tracked,
}
use straggler.Base.Counts.{
  length_pos, empty_of_length, some_listed, length-map, filter_by-map, filter_by-map_none,
}

module _ {a : Admission World} {r : Reconciler World} {group : PodClassification}
    {client : Client World} {group_label : String}
    (cluster : IsCluster a r group client group_label) (prompt : IsPrompt a r group)
    (lawful : IsLawful group.pacer) (progressive : IsProgressive group.pacer) where
  -- What admitting new pods to a world makes of it.
  record Admits (ps pods after : World) : Type 0 where
    count : length after ≡ length ps + length pods
    held : blocked_pods a.pod_blocker after ≤ length ps + blocked_pods a.pod_blocker pods
    none_astray : length (filter_by (is_astray a r group) after) ≡ 0
    same_uids : Perm (uids after) (uids ps ++ uids pods)

  later :
      (p x : Pod) (ps pods after : World)
      → x.uid ≡ p.uid
      → Admits ps (x ∷ pods) after
      → Admits (p ∷ ps) pods after
  later p x ps pods after same h = record {
    count = omega (arith, h.count);
    held = omega (arith, h.held, one x);
    none_astray = h.none_astray;
    same_uids = Perm.trans h.same_uids (
        subst (λ u. Perm (uids ps ++ u ∷ uids pods) (p.uid ∷ (uids ps ++ uids pods))) (sym same)
          (perm_middle (uids ps) (uids pods)));
  }
    where
      one :
          (x : Pod) → blocked_pods a.pod_blocker (x ∷ pods) ≤ suc (blocked_pods a.pod_blocker pods)
      one x = ground arith

  admit_all-Admits :
      (now : ℕ) (ps pods : World)
      → All (IsFresh a r group) ps
      → length ps + length pods < 0x20_0000_0000_0000
      → AreApart ps pods
      → length (filter_by (is_astray a r group) pods) ≡ 0
      → Admits ps pods (admit_all a r group now ps pods)
  unfolding admit_all
  admit_all-Admits now [] pods fresh room apart none_astray = record {
    count = omega arith;
    held = omega arith;
    none_astray = none_astray;
    same_uids = Perm.refl (uids pods);
  }
  admit_all-Admits now (p ∷ ps) pods fresh room apart none_astray =
      let (x, e, same, tracked, _) =
        admit_one cluster prompt lawful progressive now p pods fresh.0 (omega (arith, room))
          (first_apart p ps pods apart) none_astray in
      subst (λ w. Admits (p ∷ ps) pods (admit_all a r group now ps w)) (sym e)
        (later p x ps pods _ same (
          admit_all-Admits now ps (x ∷ pods) fresh.1 (omega (arith, room))
            (rest_apart p x ps pods same apart) (ground (arith, tracked, none_astray))))

  -- Where no pod is starting, the first one is not held.
  admit_all_first :
      (now : ℕ) (p : Pod) (ps pods : World)
      → All (IsFresh a r group) (p ∷ ps)
      → length (p ∷ ps) + length pods < 0x20_0000_0000_0000
      → AreApart (p ∷ ps) pods
      → length (filter_by (is_astray a r group) pods) ≡ 0
      → starting_pods a.pod_blocker pods ≡ 0
      → blocked_pods a.pod_blocker (admit_all a r group now (p ∷ ps) pods)
        ≤ length ps + blocked_pods a.pod_blocker pods
  unfolding admit_all
  admit_all_first now p ps pods fresh room apart none_astray none_starting =
      let (x, e, same, tracked, free) =
        admit_one cluster prompt lawful progressive now p pods fresh.0 (omega (arith, room))
          (first_apart p ps pods apart) none_astray in
      let unheld : blocked_pods a.pod_blocker (x ∷ pods) ≡ blocked_pods a.pod_blocker pods =
        rw (free none_starting) refl in
      let all : Admits ps (x ∷ pods) (admit_all a r group now ps (x ∷ pods)) =
        admit_all-Admits now ps (x ∷ pods) fresh.1 (omega (arith, room))
          (rest_apart p x ps pods same apart) (ground (arith, tracked, none_astray)) in
      subst
        (λ w.
          blocked_pods a.pod_blocker (admit_all a r group now ps w)
          ≤ length ps + blocked_pods a.pod_blocker pods)
        (sym e) (omega (arith, all.held, unheld))

  module _ (F : FloatOps) where
    -- The reconciler takes some of the blocked pods away, and nothing else.
    record Clears (pods left : World) : Type 0 where
      fewer : length left < length pods
      only_blocked :
          blocked_pods a.pod_blocker left + length pods
          ≡ blocked_pods a.pod_blocker pods + length left
      none_starting : starting_pods a.pod_blocker left ≡ 0
      none_astray : length (filter_by (is_astray a r group) left) ≡ 0

    reconcile-Clears :
        (now : ℕ) (request : NamespacedName) (news : List Pod) (start_up : Pod → Pod) (pods : World)
        → IsSteady a r group pods
        → Plays a r group F now request news start_up pods
        → Clears pods (reconcile F r now request pods).1
    reconcile-Clears now request news start_up pods steady plays =
        let waits : is_blocked_pod a.pod_blocker plays.pod ≡ true = plays.waits in
        let tracked = Plays-tracked steady plays in
        let some_blocked : filter_by (is_blocked_pod a.pod_blocker) pods ≢ [] =
          subst (λ w. filter_by (is_blocked_pod a.pod_blocker) w ≢ []) (sym plays.listed)
            (some_listed (is_blocked_pod a.pod_blocker) plays.front plays.pod plays.back waits) in
        let fits = standing-Fits a.pod_blocker pods steady.room in
        let distinct = blocked_distinct a.pod_blocker pods steady.distinct in
        let (allowed, left, answer, serves) = lawful _ fits in
        let some_allowed =
          progressive.moves _ fits distinct (empty_of_length _ steady.none_starting) some_blocked
            allowed left answer in
        let each =
          evicts_each cluster prompt F now request pods plays.pod plays.reads tracked allowed left
            answer steady.distinct serves in
        let only =
          evicts_only_blocked cluster prompt F now request pods plays.pod plays.reads tracked
            allowed left answer steady.distinct serves in
        let less =
          evicts_only cluster prompt F now request pods plays.pod plays.reads tracked allowed left
            answer steady.distinct serves in
        record {
          fewer = omega (arith, each, length_pos allowed some_allowed);
          only_blocked = only;
          none_starting = omega (arith, less (is_starting_pod a.pod_blocker), steady.none_starting);
          none_astray = omega (arith, less (is_astray a r group), steady.none_astray);
        }

    -- What a round leaves, from a world with as many pods as the evicted ones.
    finish :
        (now : ℕ) (start_up : Pod → Pod) (p : Pod) (ps left : World) (n b : ℕ)
        → ((p : Pod)
            → is_starting_pod a.pod_blocker p ≡ true
            → is_ready_pod a.pod_blocker (start_up p) ≡ true)
        → ((p : Pod) → (start_up p).uid ≡ p.uid)
        → All (IsFresh a r group) (p ∷ ps)
        → length (p ∷ ps) + length left ≡ n
        → n < 0x20_0000_0000_0000
        → blocked_pods a.pod_blocker left + n ≡ b + length left
        → starting_pods a.pod_blocker left ≡ 0
        → length (filter_by (is_astray a r group) left) ≡ 0
        → Nodup (uids (p ∷ ps) ++ uids left)
        → let after = map (settle a r group start_up) (admit_all a r group now (p ∷ ps) left) in
          IsSteady a r group after × (blocked_pods a.pod_blocker after < b) × (length after ≡ n)
    finish now start_up p ps left n b ready same_uid fresh total room only none_starting none_astray
          distinct =
        let g = settle a r group start_up in
        let w = admit_all a r group now (p ∷ ps) left in
        let some_room : length (p ∷ ps) + length left < 0x20_0000_0000_0000 =
          omega (arith, total, room) in
        let all = admit_all-Admits now (p ∷ ps) left fresh some_room distinct none_astray in
        let fewer =
          admit_all_first now p ps left fresh some_room distinct none_astray none_starting in
        let same_blocked =
          filter_by-map (is_blocked_pod a.pod_blocker) g w
            (settle_blocked a r group start_up ready) in
        let same_astray =
          filter_by-map (is_astray a r group) g w (settle_astray a r group start_up ready) in
        let same_uids = uids-map g w (settle_uid a r group start_up ready same_uid) in
        (
          record {
            distinct = rw same_uids (Perm.nodup (Perm.symm all.same_uids) distinct);
            room = omega (arith, length-map g w, all.count, total, room);
            none_starting =
                filter_by-map_none (is_starting_pod a.pod_blocker) g w
                  (settle_starting a r group start_up ready);
            none_astray = same_astray ∙ all.none_astray;
          },
          omega (arith, same_blocked, fewer, only, total),
          omega (arith, length-map g w, all.count, total),
        )

    -- A round for a blocked pod leaves a steady world with fewer pods blocked.
    pub round_progress :
        (now : ℕ) (request : NamespacedName) (news : List Pod) (start_up : Pod → Pod) (pods : World)
        → IsSteady a r group pods
        → Plays a r group F now request news start_up pods
        → let after = round a r group F now request news start_up pods in
          IsSteady a r group after
          × (blocked_pods a.pod_blocker after < blocked_pods a.pod_blocker pods)
          × (length after ≡ length pods)
    unfolding round
    round_progress now request [] start_up pods steady plays =
        let clears = reconcile-Clears now request [] start_up pods steady plays in
        absurd (omega (arith, clears.fewer, plays.as_many))
    round_progress now request (p ∷ ps) start_up pods steady plays =
        let clears = reconcile-Clears now request (p ∷ ps) start_up pods steady plays in
        let left = (reconcile F r now request pods).1 in
        finish now start_up p ps left (length pods) (blocked_pods a.pod_blocker pods)
          plays.becomes_ready plays.same_uid plays.fresh plays.as_many steady.room
          clears.only_blocked clears.none_starting clears.none_astray
          (subst Nodup (uids-append (p ∷ ps) left) plays.own_uids)

    Rounds-progress :
        (pods after : World) (n : ℕ)
        → IsSteady a r group pods
        → Rounds a r group F pods n after
        → IsSteady a r group after
          × (blocked_pods a.pod_blocker after ≤ blocked_pods a.pod_blocker pods - n)
          × (length after ≡ length pods)
    Rounds-progress pods _ _ steady begin = (steady, omega arith, refl)
    Rounds-progress pods _ _ steady (next n pods' _ before (idle none)) =
        let (steady', fewer, same) = Rounds-progress pods pods' n steady before in
        (steady', omega (arith, none), same)
    Rounds-progress pods _ _ steady (next n pods' _ before (play now request news start_up plays)) =
        let (steady', fewer, same) = Rounds-progress pods pods' n steady before in
        let (steady'', fewer', same') =
          round_progress now request news start_up pods' steady' plays in
        (steady'', omega (arith, fewer, fewer'), same' ∙ same)

    -- In a steady world the UIDs are distinct, no pod is starting, and no blocked pod is one that the
    -- reconciler skips. From there, after as many rounds as pods are blocked, there are as many pods
    -- as before, and all are ready. The pacer of the group is lawful, and with no pod starting it
    -- allows a blocked pod, and a pod that is older than all others before them, where their UIDs
    -- are distinct; the group has no maximum duration, and both controllers go by the same labels.
    -- The new pods have no creation time yet. An eviction removes the pod, the owners make as many
    -- pods as were evicted, and what is let through becomes ready before the next round.
    pub Rounds-complete :
        (pods after : World)
        → IsSteady a r group pods
        → Rounds a r group F pods (blocked_pods a.pod_blocker pods) after
        → (length after ≡ length pods) × (ready_pods a.pod_blocker after ≡ length after)
    Rounds-complete pods after steady rounds =
        let (steady', fewer, same) = Rounds-progress pods after _ steady rounds in
        (same, omega (arith, fewer, three_kinds a.pod_blocker after, steady'.none_starting))
