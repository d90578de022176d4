-- ===== src/Controller/Classifier/Groups.antt =====
-- The groups that Classify makes, and what ClassifyByGroupID finds of them.
use straggler.Base.{
  ℕ, ◌+◌, ◌≡◌, ◌⊎◌, inl, inr, refl, ◌∙◌, List, [], ◌∷◌, none, some, leb, leb→le, All, arith, map,
  if◌then◌else◌, Bool-cases,
}
use straggler.Base.Int.{ℤ, pos, negsuc, ◌≤ℤ◌, ◌<ℤ◌, leb_ℤ}
use straggler.Base.Result.{ok}
use straggler.Kube.{ObjectMeta, PodSpec}
use straggler.Pacer.Composite.{new_composite}
use straggler.Pacer.{Pacer}
use straggler.Controller.Types.{PodClassification}
use straggler.Controller.Classifier.External.{Libraries, IsCache, expiration}
use straggler.Controller.Classifier.{ConfigEntry, GroupEntry, Classifier}
use straggler.Controller.Classifier.Classify.{
  Matched, shorter, match_names, calculate_group_id, least_duration,
  calculate_aggregate_group_policy, find_group, group_matched, classify, found_group,
  classify_by_group_id,
}

shorter_lem :
    (least d : ℤ)
    → pos 0 ≤ℤ least
    → (pos 0 ≤ℤ shorter least d)
      × (pos 0 <ℤ least → (pos 0 <ℤ shorter least d) × (shorter least d ≤ℤ least))
      × (pos 0 <ℤ d → (pos 0 <ℤ shorter least d) × (shorter least d ≤ℤ d))
      × ((shorter least d ≡ least) ⊎ (shorter least d ≡ d))
unfolding shorter
shorter_lem (pos l) (pos d) h = ground arith
shorter_lem (pos l) (negsuc d) h = ground arith
shorter_lem (negsuc l) d h = absurd (omega arith)

module _ {L : Libraries} where
  -- Some configuration has the duration.
  abbrev pub HasDuration : List (ConfigEntry L) → ℤ → Type 0
  HasDuration [] d = ⊥
  HasDuration (config ∷ configs) d = (d ≡ config.max_blocked_duration) ⊎ HasDuration configs d

  abbrev IsWithin : ℤ → ConfigEntry L → Type 0
  IsWithin d config =
      pos 0 <ℤ config.max_blocked_duration → (pos 0 <ℤ d) × (d ≤ℤ config.max_blocked_duration)

  -- The configuration has no positive duration, or `d` is positive and no greater than it.
  abbrev pub Covers : ℤ → ConfigEntry L → Type 0
  Covers d config =
      (config.max_blocked_duration ≤ℤ pos 0) ⊎ ((pos 0 <ℤ d) × (d ≤ℤ config.max_blocked_duration))

  All-Covers :
      (d : ℤ) (configs : List (ConfigEntry L)) → All (IsWithin d) configs → All (Covers d) configs
  All-Covers d [] h = tt
  All-Covers d (config ∷ configs) h = (
    elim (Bool-cases (leb_ℤ config.max_blocked_duration (pos 0))) [
      | inl none_set ↦ inl (leb→le _ _ none_set)
      | inr some_set ↦ inr (h.0 (ground arith))
    ],
    All-Covers d configs h.1,
  )

  least_duration-le :
      (least : ℤ) (configs : List (ConfigEntry L))
      → pos 0 ≤ℤ least
      → (pos 0 <ℤ least
          → (pos 0 <ℤ least_duration L least configs) × (least_duration L least configs ≤ℤ least))
        × All (IsWithin (least_duration L least configs)) configs
  unfolding least_duration
  least_duration-le least [] h = (λ p. (p, omega arith), tt)
  least_duration-le least (config ∷ configs) h =
      let d = config.max_blocked_duration in
      let (nonneg, below, within, _) = shorter_lem least d h in
      let (rest, all) = least_duration-le (shorter least d) configs nonneg in
      (
        λ p. let (q, le) = below p in let (r, le') = rest q in (r, omega arith),
        (λ p. let (q, le) = within p in let (r, le') = rest q in (r, omega arith), all),
      )

  least_duration_found :
      (least : ℤ) (configs : List (ConfigEntry L))
      → pos 0 ≤ℤ least
      → (least_duration L least configs ≡ least)
        ⊎ HasDuration configs (least_duration L least configs)
  unfolding least_duration
  least_duration_found least [] h = inl refl
  least_duration_found least (config ∷ configs) h =
      let d = config.max_blocked_duration in
      let (nonneg, _, _, either) = shorter_lem least d h in
      elim (least_duration_found (shorter least d) configs nonneg) [
        | inr there ↦ inr (inr there)
        | inl same ↦ elim either [
          | inl kept ↦ inl (same ∙ kept)
          | inr taken ↦ inr (inl (same ∙ taken))
        ]
      ]

  -- The aggregate policy of a group: its maximum blocked duration is 0 or that of one of the
  -- configurations, and next to every configuration with a positive one it is positive and no greater.
  pub calculate_aggregate_group_policy_lem :
      (configs : List (ConfigEntry L))
      → let d = (calculate_aggregate_group_policy L configs).max_blocked_duration in
        ((d ≡ pos 0) ⊎ HasDuration configs d) × All (Covers d) configs
  unfolding calculate_aggregate_group_policy
  calculate_aggregate_group_policy_lem configs = (
    least_duration_found (pos 0) configs (omega arith),
    All-Covers _ configs (least_duration-le (pos 0) configs (omega arith)).1,
  )

module _ {L : Libraries} (K : IsCache L) where
  -- A pod to which some configuration applies is classified. If its group is not in the cache, then
  -- the group is found under its identity for 30 minutes, with the same pacer, and not after that.
  -- What is found never has a maximum blocked duration, whichever the configurations have.
  pub classify_by_group_id-classify :
      (now : ℕ) (meta : ObjectMeta) (spec : PodSpec) (c c₁ : Classifier L)
      (m : Pacer × ConfigEntry L) (ms : Matched L)
      → match_names L now meta spec c.config_names [] c ≡ (ok (m ∷ ms), c₁)
      → L.cache_get now (calculate_group_id L (m ∷ ms)) c₁.groups_by_id ≡ none
      → (group : PodClassification) × (c₂ : Classifier L) × (classify L now meta spec c
          ≡ (ok (some group), c₂))
        × (group.group_policies ≡ calculate_aggregate_group_policy L (map (λ m. m.1) (m ∷ ms)))
        × ((later : ℕ)
            → classify_by_group_id L later group.id c₂ ≡ (
              ok (
                  if leb later (now + expiration)
                  then some
                      (record group { group_policies = record { max_blocked_duration = pos 0 } })
                  else none),
              c₂,
            ))
  unfolding classify group_matched find_group classify_by_group_id found_group
  classify_by_group_id-classify now meta spec c c₁ m ms matched fresh =
      let id = calculate_group_id L (m ∷ ms) in
      let group : GroupEntry L = record {
        id = id;
        configs = map (λ m. m.1) (m ∷ ms);
        composite_pacer = new_composite id (map (λ m. m.0) (m ∷ ms));
      } in
      (
        record {
          id = id;
          pacer = group.composite_pacer;
          group_policies = calculate_aggregate_group_policy L (map (λ m. m.1) (m ∷ ms));
        },
        record c₁ { groups_by_id = L.cache_set now id group c₁.groups_by_id },
        rw (matched, fresh) refl,
        refl,
        λ later.
            let found = K.get-set_self (GroupEntry L) now later id group c₁.groups_by_id in
            elim (Bool-cases (leb later (now + expiration))) [
              | inl there ↦ rw (found, there) refl
              | inr gone ↦ rw (found, gone) refl
            ],
      )
