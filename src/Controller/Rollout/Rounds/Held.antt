-- ===== src/Controller/Rollout/Rounds/Held.antt =====
-- The webhook with a linear pacer: a new pod stands behind the blocked ones, of which the pacer takes
-- the first, and is held.
use Prim.Native.Nat.{min as min_ℕ}
use mathlib.Core.List.{Nodup}
use straggler.Base.{
  ℕ, suc, ◌+◌, ◌-◌, ◌%◌, ◌≤◌, ◌<◌, ◌≡◌, ◌∙◌, refl, sym, ap, subst, List, [], ◌∷◌, ◌++◌, String,
  Bool, true, false, length, length-append, filter_by, filter_by-sublist, take, take-sublist, All,
  arith, Bool-cases, inl, inr,
}
use straggler.Base.Float.{FloatOps, IsIeee}
use straggler.Base.Int.{pos, leb_ℤ, eqb_ℤ}
use straggler.Base.Result.{ok}
use straggler.Kube.{Pod}
use straggler.Base.Sorting.{filter_by_sublist-le}
use straggler.Pacer.{PodClassification as Standing, Fits}
use straggler.Pacer.Linear as Linear
use straggler.Pacer.Composite.{new_composite}
use straggler.Pacer.Composite.Counting.{uids}
use straggler.Pacer.Composite.Single.{new_composite_one-take}
use straggler.Controller.Rollout.Rounds.Settling.{AreApart, first_apart, rest_apart}
use straggler.Controller.Types.{Client, PodClassification}
use straggler.Controller.Admission.{
  Admission, is_same_pod, lets_through, handle_pod_admission, default_staggered_pod_label,
}
use straggler.Controller.Admission.Decision.{labelled, handle_pod_admission-lets_through}
use straggler.Controller.Reconciler.{Reconciler}
use straggler.Controller.Standing.Laws.{is_ready_pod, is_starting_pod, is_blocked_pod}
use straggler.Controller.Rollout.{World, IsCluster, starting_pods, ready_pods}
use straggler.Controller.Rollout.Laws.{distinct_blocked, group-Fits, standing_of}
use straggler.Controller.Rollout.Rounds.{IsFresh, stored, store, blocked_pods, admit_all}
use straggler.Pacer.Linear.Laws.{pace_allows, gap, sub64-rem64}
use straggler.Base.Counts.{take_front}

-- How many pods are missing to the next multiple of the step above the ready ones.
abbrev pub missing : ℕ → ℕ → ℕ
missing k ready = suc k - ready % suc k

module _ {F : FloatOps} (I : IsIeee F) (config : Linear.Config) (k : ℕ)
    (step : config.step ≡ pos (suc k)) (small : suc k < 0x8000_0000_0000_0000) where
  -- With no pod starting, the pods that are missing are taken from the front.
  pub linear_takes :
      (c : Standing) (xs ys : List Pod)
      → Fits c
      → leb_ℤ config.max_stagger (pos (length c.ready)) ≡ false
      → length c.starting ≡ 0
      → c.blocked ≡ xs ++ ys
      → missing k (length c.ready) ≤ length xs
      → Linear.pace F config c ≡ ok (take (missing k (length c.ready)) c.blocked, c.blocked)
  linear_takes c xs ys fits below none split enough =
      let n = missing k (length c.ready) in
      let gap_n : gap I config c fits ≡ pos n = rw step (sub64-rem64 (length c.ready) k small) in
      let nonzero : eqb_ℤ config.step (pos 0) ≡ false = rw step (ground arith) in
      let whole : min_ℕ (length c.blocked) n ≡ n =
        omega (arith, ap (λ (zs : List Pod). length zs) split, length-append xs ys, enough) in
      pace_allows I config c fits n below nonzero gap_n (omega (arith, none))
      ∙ ap (λ m. ok (take m c.blocked, c.blocked)) whole

-- No pod of the list has the name, the namespace and the generated name of the pod.
abbrev pub IsStranger : Pod → World → Type 0
IsStranger p pods = length (filter_by (is_same_pod p) pods) ≡ 0

-- New pods that go by other names than the pods of the list, and than each other.
abbrev pub AreStrangers : List Pod → World → Type 0
AreStrangers [] pods = Unit {0}
AreStrangers (p ∷ ps) pods =
    IsStranger p pods × All (λ q. is_same_pod q p ≡ false) ps × AreStrangers ps pods

AreStrangers-cons :
    (p x : Pod) (ps pods : World)
    → ((q : Pod) → is_same_pod q x ≡ is_same_pod q p)
    → All (λ q. is_same_pod q p ≡ false) ps
    → AreStrangers ps pods
    → AreStrangers ps (x ∷ pods)
AreStrangers-cons p x [] pods same other strange = tt
AreStrangers-cons p x (q ∷ ps) pods same other strange = (
  rw (same q ∙ other.0) strange.0,
  strange.1,
  AreStrangers-cons p x ps pods same other.1 strange.2,
)

pub AreStrangers-fewer :
    (ps left pods : World)
    → ((f : Pod → Bool) → length (filter_by f left) ≤ length (filter_by f pods))
    → AreStrangers ps pods
    → AreStrangers ps left
AreStrangers-fewer [] left pods fewer strange = tt
AreStrangers-fewer (p ∷ ps) left pods fewer strange = (
  omega (arith, fewer (is_same_pod p), strange.0),
  strange.1,
  AreStrangers-fewer ps left pods fewer strange.2,
)

not_through :
    (p : Pod) (pods : World)
    → length (filter_by (is_same_pod p) pods) ≤ 0
    → lets_through p pods ≡ false
unfolding lets_through
not_through p [] h = refl
not_through p (x ∷ pods) h = elim (Bool-cases (is_same_pod p x)) [
  | inl same ↦ absurd (ground (arith, same, h))
  | inr other ↦ rw other (not_through p pods (ground (arith, other, h)))
]

module _ {a : Admission World} {r : Reconciler World} {group : PodClassification}
    {client : Client World} {group_label : String}
    (cluster : IsCluster a r group client group_label) {F : FloatOps} (I : IsIeee F)
    (id key : String) (config : Linear.Config) (k : ℕ)
    (linear : group.pacer ≡ new_composite id (Linear.new F key config ∷ []))
    (step : config.step ≡ pos (suc k)) (small : suc k < 0x8000_0000_0000_0000) where
  -- The composite of the one linear pacer takes them as it does.
  pub asks :
      (c : Standing) (xs ys : List Pod)
      → Fits c
      → Nodup (uids c.blocked)
      → leb_ℤ config.max_stagger (pos (length c.ready)) ≡ false
      → length c.starting ≡ 0
      → c.blocked ≡ xs ++ ys
      → missing k (length c.ready) ≤ length xs
      → group.pacer.pace c ≡ ok (take (missing k (length c.ready)) xs, c.blocked)
  unfolding Linear.new
  asks c xs ys fits distinct below none split enough =
      let n = missing k (length c.ready) in
      ap (λ p. p.pace c) linear
      ∙ new_composite_one-take id (Linear.new F key config) c n
          (linear_takes I config k step small c xs ys fits below none split enough) distinct
      ∙ ap (λ zs. ok (zs, c.blocked)) (ap (take n) split ∙ take_front n xs ys enough)

  -- A new pod is held.
  admit_held :
      (now : ℕ) (p : Pod) (pods : World)
      → IsFresh a r group p
      → length pods < 0x20_0000_0000_0000
      → Nodup (uids (p ∷ pods))
      → leb_ℤ config.max_stagger (pos (ready_pods a.pod_blocker pods)) ≡ false
      → starting_pods a.pod_blocker pods ≡ 0
      → missing k (ready_pods a.pod_blocker pods) ≤ blocked_pods a.pod_blocker pods
      → IsStranger p pods
      → (x : Pod) × (store a r group now (handle_pod_admission a (p, pods)) ≡ x ∷ pods)
        × (is_blocked_pod a.pod_blocker x ≡ true)
        × ((q : Pod) → is_same_pod q x ≡ is_same_pod q p)
        × (x.uid ≡ p.uid)
  unfolding is_same_pod
  admit_held now p pods fresh room own_uid below none enough stranger =
      let q = labelled a.stagger_group_id_label group.id p in
      let (waited, wait, calm) = cluster.waits q.meta pods in
      let ready = filter_by (is_ready_pod a.pod_blocker) pods in
      let starting = filter_by (is_starting_pod a.pod_blocker) pods in
      let blocked = filter_by (is_blocked_pod a.pod_blocker) pods in
      let c : Standing = record {
        ready = ready;
        starting = starting;
        blocked = blocked ++ q ∷ [];
      } in
      let n = missing k (length ready) in
      let answer =
        asks c blocked (q ∷ []) (group-Fits cluster q pods room)
          (distinct_blocked q blocked pods (filter_by-sublist _ pods) own_uid) below none refl
          enough in
      let unnamed : length (filter_by (is_same_pod p) (take n blocked)) ≤ 0 = omega (
        arith,
        stranger,
        filter_by_sublist-le (is_same_pod p) (take-sublist n blocked),
        filter_by_sublist-le (is_same_pod p)
            (filter_by-sublist (is_blocked_pod a.pod_blocker) pods),
      ) in
      let out : lets_through q (take n blocked) ≡ false = not_through q (take n blocked) unnamed in
      elim (handle_pod_admission-lets_through a p pods fresh.enabled fresh.no_job group pods
        (fresh.in_group pods) waited pods wait calm ready starting blocked pods
        (standing_of cluster pods) cluster.blocks (take n blocked) (blocked ++ q ∷ []) answer) [
          | inl (through, e) ↦ absurd (cc (through, out))
          | inr (held, (spec, waits, e)) ↦ (
            stored a r group now
                (record (labelled default_staggered_pod_label "1" q) { spec = spec }),
            ap (store a r group now) e,
            waits,
            λ q'. refl,
            refl,
          )
        ]

  -- Blocked pods are added, and nothing else.
  pub record Holds (ps pods after : World) : Type 0 where
    pub same_ready : ready_pods a.pod_blocker after ≡ ready_pods a.pod_blocker pods
    pub same_starting : starting_pods a.pod_blocker after ≡ starting_pods a.pod_blocker pods
    pub held : blocked_pods a.pod_blocker after ≡ length ps + blocked_pods a.pod_blocker pods

  one_held :
      (p x : Pod) (ps pods after : World)
      → is_blocked_pod a.pod_blocker x ≡ true
      → Holds ps (x ∷ pods) after
      → Holds (p ∷ ps) pods after
  one_held p x ps pods after waits h = record {
    same_ready = h.same_ready ∙ rw waits refl;
    same_starting = h.same_starting ∙ rw waits refl;
    held = omega (arith, h.held, one);
  }
    where
      one : blocked_pods a.pod_blocker (x ∷ pods) ≡ suc (blocked_pods a.pod_blocker pods)
      one = rw waits refl

  pub admit_all-Holds :
      (now : ℕ) (ps pods : World)
      → All (IsFresh a r group) ps
      → length ps + length pods < 0x20_0000_0000_0000
      → AreApart ps pods
      → leb_ℤ config.max_stagger (pos (ready_pods a.pod_blocker pods)) ≡ false
      → starting_pods a.pod_blocker pods ≡ 0
      → missing k (ready_pods a.pod_blocker pods) ≤ blocked_pods a.pod_blocker pods
      → AreStrangers ps pods
      → Holds ps pods (admit_all a r group now ps pods)
  unfolding admit_all
  admit_all-Holds now [] pods fresh room apart below none enough strange = record {
    same_ready = refl;
    same_starting = refl;
    held = omega arith;
  }
  admit_all-Holds now (p ∷ ps) pods fresh room apart below none enough strange =
      let (x, e, waits, same, same_uid) =
        admit_held now p pods fresh.0 (omega (arith, room)) (first_apart p ps pods apart) below none
          enough strange.0 in
      let ready : ready_pods a.pod_blocker (x ∷ pods) ≡ ready_pods a.pod_blocker pods =
        rw waits refl in
      let more : blocked_pods a.pod_blocker (x ∷ pods) ≡ suc (blocked_pods a.pod_blocker pods) =
        rw waits refl in
      let still : starting_pods a.pod_blocker (x ∷ pods) ≡ 0 = rw waits none in
      subst (λ w. Holds (p ∷ ps) pods (admit_all a r group now ps w)) (sym e)
        (one_held p x ps pods _ waits (
          admit_all-Holds now ps (x ∷ pods) fresh.1 (omega (arith, room))
            (rest_apart p x ps pods same_uid apart) (rw ready below) still
            (rw ready (omega (arith, more, enough)))
            (AreStrangers-cons p x ps pods same strange.1 strange.2)))
