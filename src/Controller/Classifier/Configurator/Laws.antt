-- ===== src/Controller/Classifier/Configurator/Laws.antt =====
-- The configurator of pkg/controller/classifier.go: AddConfig, RemoveConfig and UpdateConfig as a user
-- of the interface sees them.
use straggler.Base.{
  ◌≡◌, inl, inr, refl, sym, List, [], ◌∷◌, String, none, some, arith, Option-cases, filter_by, not,
  subst, ◌==◌, string_eq, ◌<>◌,
}
use straggler.Base.Dict.{lookup, erase, lookup-insert, lookup-erase}
use straggler.Base.Result.{Error, Result, ok, err, panic, errorf}
use straggler.Controller.Classifier.External.{Libraries}
use straggler.Controller.Classifier.{
  StaggerGroup, ConfigEntry, Classifier, new_config_entry, store_new, store_update, add_config,
  remove_config, update_config,
}
use straggler.Controller.Classifier.Configs.{
  IsConsistent, new_config_entry_ok, add_config-IsConsistent, remove_config-IsConsistent,
}
use straggler.Controller.Classifier.Configs.Updates.{update_config-IsConsistent}
use straggler.Controller.Classifier.Configurator.{
  Change, add, remove, update, effects, IsEffective, run, run_all, successes, Shows,
  run_all-effects, configurator, view,
}

module _ {L : Libraries} where
  store_new-IsEffective :
      (c : Classifier L) (g : StaggerGroup) (r : Result (ConfigEntry L))
      → r ≡ new_config_entry L c.configs g
      → IsEffective view (add g) c (store_new L c r)
  unfolding store_new
  store_new-IsEffective c g (err e) h = inr (refl, refl)
  store_new-IsEffective c g panic h = inr (refl, refl)
  store_new-IsEffective c g (ok entry) h =
      let same = (new_config_entry_ok c.configs g entry (sym h)).0 in
      inl (refl, λ n. rw (← same) (ground (arith, lookup-insert n entry.name entry c.configs)))

  store_update-IsEffective :
      (c : Classifier L) (g : StaggerGroup) (r : Result (ConfigEntry L))
      → r ≡ new_config_entry L c.configs g
      → IsEffective view (update g) c (store_update L g c r)
  unfolding store_update
  store_update-IsEffective c g (err e) h = inr (refl, refl)
  store_update-IsEffective c g panic h = inr (refl, refl)
  store_update-IsEffective c g (ok entry) h =
      let same = (new_config_entry_ok c.configs g entry (sym h)).0 in
      inl (
        refl,
        λ n. rw (← same) (
            ground (
              arith,
              lookup-insert n entry.name entry (erase entry.name c.configs),
              lookup-erase n entry.name c.configs,
            )),
      )

  add_config-IsEffective :
      (g : StaggerGroup) (c : Classifier L) → IsEffective view (add g) c (add_config L g c)
  add_config-IsEffective g c = elim (Option-cases (lookup g.name c.configs)) [
    | inl fresh ↦
        subst (IsEffective view (add g) c) (sym (add_config_fresh fresh))
          (store_new-IsEffective c g (new_config_entry L c.configs g) refl)
    | inr (entry, taken) ↦
        let (e, same) = add_config_taken entry taken in
        subst (IsEffective view (add g) c) (sym same) (inr (refl, refl))
  ]
    where
      add_config_fresh :
          lookup g.name c.configs ≡ none
          → add_config L g c ≡ store_new L c (new_config_entry L c.configs g)
      add_config_fresh h = unfold add_config in ground (arith, h)

      add_config_taken :
          (entry : ConfigEntry L)
          → lookup g.name c.configs ≡ some entry
          → (e : Error) × (add_config L g c ≡ (err e, c))
      add_config_taken entry h =
          unfold add_config in (errorf ("duplicate config name: " <> g.name), ground (arith, h))

  remove_config-IsEffective :
      (name : String) (c : Classifier L) → IsEffective view (remove name) c (remove_config L name c)
  remove_config-IsEffective name c = elim (Option-cases (lookup name c.configs)) [
    | inl missing ↦
        let (e, same) = remove_missing missing in
        subst (IsEffective view (remove name) c) (sym same) (inr (refl, refl))
    | inr (entry, there) ↦
        subst (IsEffective view (remove name) c) (sym (remove_there entry there))
          (inl (refl, λ n. ground (arith, lookup-erase n name c.configs)))
  ]
    where
      remove_missing :
          lookup name c.configs ≡ none → (e : Error) × (remove_config L name c ≡ (err e, c))
      remove_missing h =
          unfold remove_config in (errorf ("config not found: " <> name), ground (arith, h))

      remove_there :
          (entry : ConfigEntry L)
          → lookup name c.configs ≡ some entry
          → remove_config L name c ≡ (
            ok tt,
            record c {
              configs = erase name c.configs;
              config_names = filter_by (λ n. not (n == name)) c.config_names;
            },
          )
      remove_there entry h = unfold remove_config in ground (arith, h)

  configurator-Shows : Shows (configurator {L = L}) view
  unfolding configurator update_config
  configurator-Shows = record { effective = effective }
    where
      effective : (x : Change) (s : Classifier L) → IsEffective view x s (run configurator x s)
      effective (add g) s = add_config-IsEffective g s
      effective (remove name) s = remove_config-IsEffective name s
      effective (update g) s = store_update-IsEffective s g (new_config_entry L s.configs g) refl

  -- Any changes of a consistent classifier, those that fail included, leave it consistent: each name
  -- of its list has a configuration of that name, and no two have the same grouping expression.
  pub configurator-IsConsistent :
      (xs : List Change) (c : Classifier L)
      → IsConsistent c
      → IsConsistent (run_all configurator xs c)
  unfolding configurator
  configurator-IsConsistent [] c i = i
  configurator-IsConsistent (add g ∷ xs) c i =
      configurator-IsConsistent xs (add_config L g c).1 (add_config-IsConsistent g c i)
  configurator-IsConsistent (remove name ∷ xs) c i =
      configurator-IsConsistent xs (remove_config L name c).1 (remove_config-IsConsistent name c i)
  configurator-IsConsistent (update g ∷ xs) c i =
      configurator-IsConsistent xs (update_config L g c).1 (update_config-IsConsistent g c i)

  -- After any changes of the classifier, those that fail included, it has under every name the
  -- configuration that the successful ones leave there: an addition and an update put theirs under
  -- its name, a removal takes it away, and other names are left alone.
  pub configurator-effects :
      (xs : List Change) (c : Classifier L) (n : String)
      → view (run_all configurator xs c) n ≡ effects (successes configurator xs c) (view c) n
  configurator-effects xs c n = run_all-effects configurator view configurator-Shows xs c n
