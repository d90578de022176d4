-- ===== src/Controller/Classifier/Configs/Unknown.antt =====
-- UpdateConfig of a name that is not there: it succeeds, but no pod is ever classified by the new
-- configuration, since its name is not put into the list of names.
use straggler.Base.{
  ℕ, ◌≡◌, ◌∙◌, refl, sym, ap, subst, List, [], ◌∷◌, String, Option, none, some, arith, All, inl,
  inr, string_dec, Option-cases, ◌<>◌, string_eq,
}
use straggler.Base.Dict.{Dict, lookup, insert, erase, lookup-insert, lookup-erase}
use straggler.Base.Result.{Result, ok, err, panic, errorf}
use straggler.Base.State.{M, continue}
use straggler.Kube.{ObjectMeta, PodSpec}
use straggler.Controller.Classifier.External.{Libraries}
use straggler.Controller.Classifier.{
  StaggerGroup, ConfigEntry, Classifier, new_config_entry, store_update, add_config, update_config,
}
use straggler.Controller.Classifier.Classify.{
  Matched, grouping_key, match_keyed, match_name, match_names, calculate_group_id, find_group,
  group_matched, classify,
}
use straggler.Controller.Classifier.Configs.{IsKnown, IsConsistent, new_config_entry_ok}

module _ {L : Libraries} where
  -- The outcome of a run, with other configurations in the state.
  abbrev with_configs :
      {A : Type 0} → Dict String (ConfigEntry L) → Result A × Classifier L → Result A × Classifier L
  with_configs d (r, c) = (r, record c { configs = d })

  -- The names have the same configurations in both.
  abbrev AgreesOn : List String → Dict String (ConfigEntry L) → Dict String (ConfigEntry L) → Type 0
  AgreesOn names d d' = All (λ n. lookup n d' ≡ lookup n d) names

  match_keyed-with_configs :
      (now : ℕ) (config : ConfigEntry L) (key : Option String) (matched : Matched L)
      (c : Classifier L) (d : Dict String (ConfigEntry L))
      → (match_keyed L now config key matched (record c { configs = d })
          ≡ with_configs d (match_keyed L now config key matched c))
        × ((match_keyed L now config key matched c).1.configs ≡ c.configs)
  unfolding match_keyed
  match_keyed-with_configs now config none matched c d = (refl, refl)
  match_keyed-with_configs now config (some key) matched c d = (refl, refl)

  match_name-with_configs :
      (now : ℕ) (meta : ObjectMeta) (spec : PodSpec) (name : String) (matched : Matched L)
      (c : Classifier L) (d : Dict String (ConfigEntry L))
      → lookup name d ≡ lookup name c.configs
      → (match_name L now meta spec name matched (record c { configs = d })
          ≡ with_configs d (match_name L now meta spec name matched c))
        × ((match_name L now meta spec name matched c).1.configs ≡ c.configs)
  unfolding match_name
  match_name-with_configs now meta spec name matched c d same =
      elim (Option-cases (lookup name c.configs)) [
        | inl missing ↦ (rw (match_name, same, missing) refl, rw (match_name, missing) refl)
        | inr (config, found) ↦
            let (e, f) =
              match_keyed-with_configs now config (grouping_key L config meta spec) matched c d in
            (rw (match_name, same, found) e, rw (match_name, found) f)
      ]

  continue-with_configs :
      {A B : Type 0} (d d₀ : Dict String (ConfigEntry L)) (s : Result A × Classifier L)
      (f : A → M (Classifier L) B)
      → s.1.configs ≡ d₀
      → ((a : A) (c : Classifier L)
          → c.configs ≡ d₀
          → f a (record c { configs = d }) ≡ with_configs d (f a c))
      → continue (with_configs d s) f ≡ with_configs d (continue s f)
  continue-with_configs d d₀ (ok a, c) f e h = h a c e
  continue-with_configs d d₀ (err x, c) f e h = refl
  continue-with_configs d d₀ (panic, c) f e h = refl

  match_names-with_configs :
      (now : ℕ) (meta : ObjectMeta) (spec : PodSpec) (names : List String) (matched : Matched L)
      (c : Classifier L) (d₀ d : Dict String (ConfigEntry L))
      → c.configs ≡ d₀
      → AgreesOn names d₀ d
      → match_names L now meta spec names matched (record c { configs = d })
        ≡ with_configs d (match_names L now meta spec names matched c)
  unfolding match_names
  match_names-with_configs now meta spec [] matched c d₀ d e h = refl
  match_names-with_configs now meta spec (name ∷ names) matched c d₀ d e h =
      let (one, kept) =
        match_name-with_configs now meta spec name matched c d
          (h.0 ∙ ap (λ x. lookup name x) (sym e)) in
      ap (λ s. continue s (match_names L now meta spec names)) one
      ∙ continue-with_configs d d₀ (match_name L now meta spec name matched c)
          (match_names L now meta spec names) (kept ∙ e)
          (λ m c₁ e₁. match_names-with_configs now meta spec names m c₁ d₀ d e₁ h.1)

  group_matched-with_configs :
      (now : ℕ) (matched : Matched L) (c : Classifier L) (d : Dict String (ConfigEntry L))
      → group_matched L now matched (record c { configs = d })
        ≡ with_configs d (group_matched L now matched c)
  unfolding group_matched find_group
  group_matched-with_configs now [] c d = refl
  group_matched-with_configs now (m ∷ matched) c d =
      elim (Option-cases (L.cache_get now (calculate_group_id L (m ∷ matched)) c.groups_by_id)) [
        | inl missing ↦ rw (group_matched, missing) refl
        | inr (g, cached) ↦ rw (group_matched, cached) refl
      ]

  -- Other configurations, which agree on the names of the list, change no classification.
  classify-with_configs :
      (now : ℕ) (meta : ObjectMeta) (spec : PodSpec) (c : Classifier L)
      (d : Dict String (ConfigEntry L))
      → AgreesOn c.config_names c.configs d
      → classify L now meta spec (record c { configs = d })
        ≡ with_configs d (classify L now meta spec c)
  unfolding classify
  classify-with_configs now meta spec c d h =
      ap (λ s. continue s (group_matched L now))
        (match_names-with_configs now meta spec c.config_names [] c c.configs d refl h)
      ∙ continue-with_configs d _ (match_names L now meta spec c.config_names [] c)
          (group_matched L now) refl (λ m c₁ _. group_matched-with_configs now m c₁ d)

  agrees-update :
      (entry : ConfigEntry L) (d : Dict String (ConfigEntry L)) (names : List String)
      → lookup entry.name d ≡ none
      → All (IsKnown d) names
      → AgreesOn names d (insert entry.name entry (erase entry.name d))
  agrees-update entry d [] missing h = tt
  agrees-update entry d (n ∷ names) missing h = (
    elim (string_dec entry.name n) [
      | yes same ↦ absurd (ground (arith, ap (λ x. lookup x d) same, missing, h.0.1))
      | no differ ↦ ground (
        arith,
        lookup-insert n entry.name entry (erase entry.name d),
        lookup-erase n entry.name d,
        differ,
      )
    ],
    agrees-update entry d names missing h.1,
  )

  store_update_ok :
      (g : StaggerGroup) (c c' : Classifier L) (r : Result (ConfigEntry L))
      → store_update L g c r ≡ (ok tt, c')
      → (entry : ConfigEntry L) × (r ≡ ok entry)
        × (record c { configs = insert entry.name entry (erase g.name c.configs) } ≡ c')
  unfolding store_update
  store_update_ok g c c' (ok entry) h = (entry, refl, ap (λ s. s.1) h)
  store_update_ok g c c' (err e) h = absurd (cc (ap (λ s. s.0) h))
  store_update_ok g c c' panic h = absurd (cc (ap (λ s. s.0) h))

  add_config_duplicate :
      (g : StaggerGroup) (c : Classifier L) (e : ConfigEntry L)
      → lookup g.name c.configs ≡ some e
      → add_config L g c ≡ (err (errorf ("duplicate config name: " <> g.name)), c)
  unfolding add_config
  add_config_duplicate g c e there = rw (add_config, there) refl

  -- When UpdateConfig accepts a configuration whose name is not there, in a consistent classifier, then
  -- a call of Classify, at any time and for any pod, returns what it returns without the update, and
  -- AddConfig refuses the configuration as a duplicate.
  pub classify-update_config_unknown :
      (g : StaggerGroup) (c c' : Classifier L)
      → IsConsistent c
      → lookup g.name c.configs ≡ none
      → update_config L g c ≡ (ok tt, c')
      → ((now : ℕ) (meta : ObjectMeta) (spec : PodSpec)
          → (classify L now meta spec c').0 ≡ (classify L now meta spec c).0)
        × (add_config L g c' ≡ (err (errorf ("duplicate config name: " <> g.name)), c'))
  unfolding update_config add_config
  classify-update_config_unknown g c c' i missing h =
      let (entry, made, stored) = store_update_ok g c c' (new_config_entry L c.configs g) h in
      let (own, _) = new_config_entry_ok c.configs g entry made in
      let named : entry.name ≡ g.name = ap (λ g. g.name) own in
      let d = insert entry.name entry (erase entry.name c.configs) in
      let changed : record c { configs = d } ≡ c' =
        ap (λ x. record c { configs = insert entry.name entry (erase x c.configs) }) named
        ∙ stored in
      let agrees =
        agrees-update entry c.configs c.config_names (ap (λ x. lookup x c.configs) named ∙ missing)
          i.names_known in
      (
        λ now meta spec.
            subst
              (λ (c' : Classifier L).
                (classify L now meta spec c').0 ≡ (classify L now meta spec c).0)
              changed (ap (λ s. s.0) (classify-with_configs now meta spec c d agrees)),
        subst
            (λ (c' : Classifier L).
              add_config L g c' ≡ (err (errorf ("duplicate config name: " <> g.name)), c'))
            changed
            (add_config_duplicate g _ entry (
              ground (
                arith,
                lookup-insert g.name entry.name entry (erase entry.name c.configs),
                named,
              ))),
      )
