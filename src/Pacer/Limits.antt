-- ===== src/Pacer/Limits.antt =====
-- How many pods a pacer leaves starting: a pacer with a limit allows no pod while that many pods of
-- the group are starting. The limit holds as long as fewer than a cut-off are ready, which is the
-- `maxStagger` of the configuration.
use Prim.Native.Nat.{min as min_ℕ}
use mathlib.Core.List.{Perm, Nodup}
use mathlib.Core.List.Perm
use straggler.Base.{
  ℕ, suc, ◌-◌, ◌≤◌, ◌<◌, ◌≡◌, ◌≢◌, ◌∙◌, refl, ap, ◌%◌, List, [], ◌∷◌, ◌++◌, String, Bool, true,
  false, length, arith, ltb, ltb→lt, Bool-cases, inl, inr, All, filter_by, if◌then◌else◌,
}
use straggler.Base.Float.{FloatOps, IsIeee}
use straggler.Base.Int.{pos, leb_ℤ}
use straggler.Base.Result.{Result, ok}
use straggler.Base.Sorting.{IsSort}
use straggler.Base.Counts.{length_pos}
use straggler.Kube.{Pod}
use straggler.Pacer.{PodClassification, Pacer, Fits, IsLawful, same_allowed}
use straggler.Pacer.Exponential as Exponential
use straggler.Pacer.Exponential.Laws.{target, pace-fills_target}
use straggler.Pacer.Linear as Linear
use straggler.Pacer.Linear.Laws.{pace-fills_step}
use straggler.Pacer.Composite.{new_composite}
use straggler.Pacer.Composite.Counting.{uids, named_by_all}
use straggler.Pacer.Composite.Laws.{Runs, new_composite-allows_named, perm-Fits}

-- While fewer than `cut_off` pods are ready, an answer that allows some pod is given only where
-- fewer than `limit` pods are starting.
pub record IsCapped (p : Pacer) (cut_off limit : ℕ) : Type 0 where
  pub caps :
      (c : PodClassification)
      → Fits c
      → Nodup (uids c.blocked)
      → length c.ready < cut_off
      → (allowed blocked : List Pod) → p.pace c ≡ ok (allowed, blocked)
      → allowed ≢ []
      → length c.starting < limit

same_left :
    {r : Result (List Pod × List Pod)} {a b a' b' : List Pod}
    → r ≡ ok (a, b)
    → r ≡ ok (a', b')
    → b ≡ b'
same_left e e' = ground (arith, e, e')

below_cut_off : (r m : ℕ) → r < m → leb_ℤ (pos m) (pos r) ≡ false
below_cut_off r m h = ground arith

module _ (F : FloatOps) {sort : (Pod → Pod → Bool) → List Pod → List Pod} (S : IsSort sort) where
  -- An exponential pacer whose targets below the cut-off stay within a number has this number as its
  -- limit, and `max_stagger` as its cut-off.
  pub new_exponential-IsCapped :
      (key : String) (config : Exponential.Config F) (m b : ℕ)
      → config.max_stagger ≡ pos m
      → b < 0x8000_0000_0000_0000
      → ((r : ℕ) → r < m → (t : ℕ) × (target F config r ≡ pos t) × (t ≤ b))
      → IsCapped (Exponential.new F sort key config) m b
  unfolding Exponential.new
  new_exponential-IsCapped key config m b cut small targets = record {
    caps = λ c fits _ below allowed blocked e some_allowed.
        let (t, is_target, within) = targets (length c.ready) below in
        let (xs, _, served, _, count, _) =
          pace-fills_target F S config c t fits (rw cut (below_cut_off _ m below)) is_target
            (omega arith) in
        let same : allowed ≡ xs = same_allowed e served in
        let more : 0 < length xs = rw (← same) (length_pos allowed some_allowed) in grind arith;
  }

module _ {F : FloatOps} (I : IsIeee F) where
  -- A linear pacer has its step as its limit, and `max_stagger` as its cut-off.
  pub new_linear-IsCapped :
      (key : String) (config : Linear.Config) (m k : ℕ)
      → config.max_stagger ≡ pos m
      → config.step ≡ pos (suc k)
      → suc k < 0x8000_0000_0000_0000
      → IsCapped (Linear.new F key config) m (suc k)
  unfolding Linear.new
  new_linear-IsCapped key config m k cut step small = record {
    caps = λ c fits _ below allowed blocked e some_allowed.
        let (xs, served, _, count) =
          pace-fills_step I config c fits k (rw cut (below_cut_off _ m below)) step small in
        let same : allowed ≡ xs = same_allowed e served in
        let more : 0 < length xs = rw (← same) (length_pos allowed some_allowed) in
        elim (Bool-cases (ltb (length c.starting) (suc k - length c.ready % suc k))) [
          | inl fewer ↦ omega (arith, ltb→lt _ _ fewer)
          | inr many ↦ absurd (
              let none : length xs ≡ 0 =
                count
                ∙ ap
                    (λ b.
                      if b then min_ℕ (length c.blocked) (suc k - length c.ready % suc k) else 0)
                    many in
              omega arith)
        ];
  }

filter_by_nonempty :
    (f : Pod → Bool) (xs : List Pod) → filter_by f xs ≢ [] → (x : Pod) × (f x ≡ true)
filter_by_nonempty f [] h = absurd (h refl)
filter_by_nonempty f (x ∷ xs) h = elim (Bool-cases (f x)) [
  | inl chosen ↦ (x, chosen)
  | inr other ↦ filter_by_nonempty f xs (λ e. h (rw other e))
]

named_nonempty :
    (pod : Pod) (r : List Pod) (rs : List (List Pod)) → named_by_all (r ∷ rs) pod ≡ true → r ≢ []
named_nonempty pod r rs named empty = absurd (ground (arith, named, empty))

named_later :
    (pod : Pod) (r : List Pod) (rs : List (List Pod))
    → named_by_all (r ∷ rs) pod ≡ true
    → named_by_all rs pod ≡ true
named_later pod r rs named = ground (arith, named)

-- A pod that all lists name is in the list of each pacer, which has answered about the same pods,
-- perhaps in another order.
Runs-member :
    (qs : List Pacer) (p : Pacer) (ps : List Pacer) (c : PodClassification) (rs : List (List Pod))
    (b : List Pod) (pod : Pod)
    → All IsLawful (qs ++ p ∷ ps)
    → Fits c
    → Runs (qs ++ p ∷ ps) c rs b
    → named_by_all rs pod ≡ true
    → (before : List Pod) × (r : List Pod) × (after : List Pod) × Perm before c.blocked
      × (p.pace (record c { blocked = before }) ≡ ok (r, after))
      × (r ≢ [])
Runs-member [] p ps c [] b pod lawful fits runs named = absurd runs
Runs-member [] p ps c (r ∷ rs) b pod lawful fits (left, e, runs) named =
    (c.blocked, r, left, Perm.refl c.blocked, e, named_nonempty pod r rs named)
Runs-member (q ∷ qs) p ps c [] b pod lawful fits runs named = absurd runs
Runs-member (q ∷ qs) p ps c (r ∷ rs) b pod lawful fits (left, e, runs) named =
    let (_, left', e', s) = lawful.0 c fits in
    let same : left ≡ left' = same_left e e' in
    let perm : Perm left c.blocked = rw same s.same_pods in
    let (before, r', after, perm', answer, some_allowed) =
      Runs-member qs p ps (record c { blocked = left }) rs b pod lawful.1
        (perm-Fits c left perm fits) runs (named_later pod r rs named) in
    (before, r', after, Perm.trans perm' perm, answer, some_allowed)

-- Whatever is the first pacer, a run of a composite that allows some pod asks each pacer.
composite_member :
    (id : String) (qs : List Pacer) (p : Pacer) (ps : List Pacer) (c : PodClassification)
    (allowed blocked : List Pod)
    → All IsLawful (qs ++ p ∷ ps)
    → Fits c
    → Nodup (uids c.blocked)
    → (new_composite id (qs ++ p ∷ ps)).pace c ≡ ok (allowed, blocked)
    → allowed ≢ []
    → (before : List Pod) × (r : List Pod) × (after : List Pod) × Perm before c.blocked
      × (p.pace (record c { blocked = before }) ≡ ok (r, after))
      × (r ≢ [])
composite_member id [] p ps c allowed blocked lawful fits distinct e some_allowed =
    let (rs, b, runs, answer) = new_composite-allows_named id p ps c lawful fits distinct in
    let (pod, named) =
      filter_by_nonempty (named_by_all rs) b
        (λ none. some_allowed (same_allowed e answer ∙ none)) in
    Runs-member [] p ps c rs b pod lawful fits runs named
composite_member id (q ∷ qs) p ps c allowed blocked lawful fits distinct e some_allowed =
    let (rs, b, runs, answer) =
      new_composite-allows_named id q (qs ++ p ∷ ps) c lawful fits distinct in
    let (pod, named) =
      filter_by_nonempty (named_by_all rs) b
        (λ none. some_allowed (same_allowed e answer ∙ none)) in
    Runs-member (q ∷ qs) p ps c rs b pod lawful fits runs named

-- A composite of lawful pacers has every limit that one of its pacers has.
pub new_composite-IsCapped :
    (id : String) (qs : List Pacer) (p : Pacer) (ps : List Pacer) (m b : ℕ)
    → All IsLawful (qs ++ p ∷ ps)
    → IsCapped p m b
    → IsCapped (new_composite id (qs ++ p ∷ ps)) m b
new_composite-IsCapped id qs p ps m b lawful capped = record {
  caps = λ c fits distinct below allowed blocked e some_allowed.
      let (before, r, after, perm, answer, some_named) =
        composite_member id qs p ps c allowed blocked lawful fits distinct e some_allowed in
      capped.caps (record c { blocked = before }) (perm-Fits c before perm fits)
        (Perm.nodup (Perm.symm (Perm.map (λ p. p.uid) perm)) distinct) below r after answer
        some_named;
}
