-- ===== src/Controller/Classifier/Configs/Updates.antt =====
-- UpdateConfig keeps the configurations consistent, and refuses the expression that a configuration has.
use straggler.Base.{
  All-map, ◌≡◌, refl, String, some, true, false, arith, sym, inl, inr, Option-cases, Bool-cases,
  ◌<>◌, ◌==◌, string_eq,
}
use straggler.Base.Dict.{Dict, lookup, insert, erase, lookup-insert, lookup-erase}
use straggler.Base.Result.{Error, Result, ok, err, panic, errorf}
use straggler.Controller.Classifier.External.{Libraries}
use straggler.Controller.Classifier.{
  StaggerGroup, ConfigEntry, Classifier, expression_owner, new_config_entry, store_update,
  update_config,
}
use straggler.Controller.Classifier.Configs.{
  IsKnown, IsConsistent, expression_owner-none, new_config_entry_ok, insert-named, insert-distinct,
  lookup-erase-some,
}

module _ {L : Libraries} where
  IsKnown-update :
      (entry : ConfigEntry L) (d : Dict String (ConfigEntry L)) (x : String)
      → IsKnown d x
      → IsKnown (insert entry.name entry (erase entry.name d)) x
  IsKnown-update entry d x (e, f) = elim (Bool-cases (entry.name == x)) [
    | inl same ↦
        (entry, ground (arith, lookup-insert x entry.name entry (erase entry.name d), same))
    | inr other ↦ (
      e,
      ground (
        arith,
        lookup-insert x entry.name entry (erase entry.name d),
        lookup-erase x entry.name d,
        other,
        f,
      ),
    )
  ]

  store_update-IsConsistent :
      (c : Classifier L) (g : StaggerGroup) (r : Result (ConfigEntry L))
      → r ≡ new_config_entry L c.configs g
      → IsConsistent c
      → IsConsistent (store_update L g c r).1
  unfolding store_update
  store_update-IsConsistent c g (err e) h i = i
  store_update-IsConsistent c g panic h i = i
  store_update-IsConsistent c g (ok entry) h i =
      let (same, new) = new_config_entry_ok c.configs g entry (sym h) in
      let rest = erase entry.name c.configs in
      rw (← same) (record {
        names_known = All-map _ _ c.config_names (IsKnown-update entry c.configs) i.names_known;
        named = λ k e.
            insert-named entry rest k e
              (λ f. i.named k e (lookup-erase-some entry.name c.configs k e f));
        distinct = λ j k d e.
            insert-distinct entry rest j k d e
              (λ k e f. rw same (new k e (lookup-erase-some entry.name c.configs k e f)))
              (λ f f'.
                i.distinct j k d e (lookup-erase-some entry.name c.configs j d f)
                  (lookup-erase-some entry.name c.configs k e f'));
      })

  -- Updating a configuration keeps the configurations consistent, also where it fails.
  pub update_config-IsConsistent :
      (g : StaggerGroup) (c : Classifier L) → IsConsistent c → IsConsistent (update_config L g c).1
  unfolding update_config
  update_config-IsConsistent g c i = store_update-IsConsistent c g _ refl i

  -- An update that keeps the grouping expression of a configuration that is there fails, whatever else
  -- it changes, and changes nothing.
  pub update_config_same_expression :
      (g : StaggerGroup) (c : Classifier L) (e : ConfigEntry L)
      → lookup g.name c.configs ≡ some e
      → e.grouping_expression ≡ g.grouping_expression
      → (x : Error) × (update_config L g c ≡ (err x, c))
  unfolding update_config store_update
  update_config_same_expression g c e there same =
      elim (Option-cases (expression_owner L g.grouping_expression c.configs)) [
        | inl new ↦
            absurd
              (expression_owner-none g.grouping_expression c.configs new g.name e there (sym same))
        | inr (name, owned) ↦ elim (Bool-cases (g.grouping_expression == "")) [
          | inl empty ↦ (errorf "empty grouping expression", rw (refused_empty empty) refl)
          | inr full ↦ (
            errorf ("grouping expression already exists: " <> name),
            rw (refused name full owned) refl,
          )
        ]
      ]
    where
      refused_empty :
          (g.grouping_expression == "") ≡ true
          → new_config_entry L c.configs g ≡ err (errorf "empty grouping expression")
      refused_empty h = unfold new_config_entry in ground (arith, h)

      refused :
          (name : String)
          → (g.grouping_expression == "") ≡ false
          → expression_owner L g.grouping_expression c.configs ≡ some name
          → new_config_entry L c.configs g
            ≡ err (errorf ("grouping expression already exists: " <> name))
      refused name h o = unfold new_config_entry in ground (arith, h, o)
