-- ===== src/Controller/Classifier/Expiry.antt =====
-- How long a group can be found, and whose pacer a key has.
use straggler.Base.{
  ℕ, ◌≡◌, ◌∙◌, refl, sym, ap, List, [], ◌∷◌, String, Option, none, some, map, Option-cases, inl,
  inr, string_eq,
}
use straggler.Base.Dict.{lookup}
use straggler.Base.Result.{Result, ok, err, panic}
use straggler.Base.State.{M, continue}
use straggler.Kube.{ObjectMeta, PodSpec}
use straggler.Pacer.{Pacer}
use straggler.Controller.Types.{PodClassification}
use straggler.Controller.Classifier.External.{Libraries}
use straggler.Controller.Classifier.{ConfigEntry, GroupEntry, Classifier}
use straggler.Controller.Classifier.Classify.{
  Matched, grouping_key, match_keyed, match_name, match_names, calculate_group_id, find_group,
  group_matched, classify, calculate_aggregate_group_policy, found_group, classify_by_group_id,
}

module _ {L : Libraries} where
  match_keyed-groups :
      (now : ℕ) (config : ConfigEntry L) (key : Option String) (matched : Matched L)
      (c : Classifier L)
      → (match_keyed L now config key matched c).1.groups_by_id ≡ c.groups_by_id
  unfolding match_keyed
  match_keyed-groups now config none matched c = refl
  match_keyed-groups now config (some key) matched c = refl

  match_name-groups :
      (now : ℕ) (meta : ObjectMeta) (spec : PodSpec) (name : String) (matched : Matched L)
      (c : Classifier L)
      → (match_name L now meta spec name matched c).1.groups_by_id ≡ c.groups_by_id
  unfolding match_name
  match_name-groups now meta spec name matched c = elim (Option-cases (lookup name c.configs)) [
    | inl missing ↦ rw (match_name, missing) refl
    | inr (config, found) ↦
        rw (match_name, found)
          (match_keyed-groups now config (grouping_key L config meta spec) matched c)
  ]

  continue-groups :
      {A B : Type 0} (c : Classifier L) (s : Result A × Classifier L) (f : A → M (Classifier L) B)
      → s.1.groups_by_id ≡ c.groups_by_id
      → ((a : A) (c₁ : Classifier L) → (f a c₁).1.groups_by_id ≡ c₁.groups_by_id)
      → (continue s f).1.groups_by_id ≡ c.groups_by_id
  continue-groups c (ok a, c₁) f e h = h a c₁ ∙ e
  continue-groups c (err x, c₁) f e h = e
  continue-groups c (panic, c₁) f e h = e

  -- The loop of Classify leaves the groups alone.
  match_names-groups :
      (now : ℕ) (meta : ObjectMeta) (spec : PodSpec) (names : List String) (matched : Matched L)
      (c : Classifier L)
      → (match_names L now meta spec names matched c).1.groups_by_id ≡ c.groups_by_id
  unfolding match_names
  match_names-groups now meta spec [] matched c = refl
  match_names-groups now meta spec (name ∷ names) matched c =
      continue-groups c (match_name L now meta spec name matched c)
        (match_names L now meta spec names) (match_name-groups now meta spec name matched c)
        (λ m c₁. match_names-groups now meta spec names m c₁)

  -- A pod to which some configuration applies, and whose group is in the cache, is classified, but the
  -- group is not found any longer for it: at each later time ClassifyByGroupID finds under each
  -- identity what it would have found without the call.
  pub classify_by_group_id-classify_cached :
      (now : ℕ) (meta : ObjectMeta) (spec : PodSpec) (c c₁ : Classifier L)
      (m : Pacer × ConfigEntry L) (ms : Matched L) (g : GroupEntry L)
      → match_names L now meta spec c.config_names [] c ≡ (ok (m ∷ ms), c₁)
      → L.cache_get now (calculate_group_id L (m ∷ ms)) c₁.groups_by_id ≡ some g
      → (group : PodClassification) × (classify L now meta spec c ≡ (ok (some group), c₁))
        × (group.id ≡ g.id)
        × ((later : ℕ) (id : String)
            → (classify_by_group_id L later id c₁).0 ≡ (classify_by_group_id L later id c).0)
  unfolding classify group_matched find_group classify_by_group_id
  classify_by_group_id-classify_cached now meta spec c c₁ m ms g matched cached =
      let kept : c₁.groups_by_id ≡ c.groups_by_id =
        ap (λ (s : Result (Matched L) × Classifier L). s.1.groups_by_id) (sym matched)
        ∙ match_names-groups now meta spec c.config_names [] c in
      (
        record {
          id = g.id;
          pacer = g.composite_pacer;
          group_policies = calculate_aggregate_group_policy L (map (λ m. m.1) (m ∷ ms));
        },
        rw (matched, cached) refl,
        refl,
        λ later id. ap (λ cache. ok (found_group L (L.cache_get later id cache))) kept,
      )
