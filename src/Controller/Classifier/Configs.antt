-- ===== src/Controller/Classifier/Configs.antt =====
-- The configurations stay consistent: names and expressions are unique.
pub mod Updates
pub mod Runs
pub mod Unknown
use straggler.Base.{
  All-append, All-map, All-filter_by, ◌≡◌, ◌≢◌, refl, subst, List, [], ◌∷◌, ◌++◌, String, Option,
  none, some, Bool, true, false, not, arith, All, ap, sym, inl, inr, Option-cases, Bool-cases,
  filter_by, ◌<>◌, ◌==◌, string_eq, string_dec, if◌then◌else◌,
}
use straggler.Base.Dict.{Dict, lookup, insert, erase, lookup-insert, lookup-erase}
use straggler.Base.Result.{Error, Result, ok, err, panic, errorf, ◌>>=◌, wrap_error}
use straggler.Controller.Classifier.External.{Libraries}
use straggler.Controller.Classifier.{
  StaggerGroup, ConfigEntry, Classifier, new_pod_classifier, expression_owner, entry_of,
  new_config_entry, store_new, store_update, add_config, remove_config, update_config,
}

module _ {L : Libraries} where
  abbrev pub IsKnown : Dict String (ConfigEntry L) → String → Type 0
  IsKnown configs name = (entry : ConfigEntry L) × (lookup name configs ≡ some entry)

  -- Every name of the list has a configuration, which carries that name, and no two
  -- configurations have the same grouping expression.
  pub record IsConsistent (c : Classifier L) : Type 0 where
    pub names_known : All (IsKnown c.configs) c.config_names
    pub named : (k : String) (e : ConfigEntry L) → lookup k c.configs ≡ some e → e.name ≡ k
    pub distinct :
        (j k : String) (d e : ConfigEntry L)
        → lookup j c.configs ≡ some d
        → lookup k c.configs ≡ some e
        → d.grouping_expression ≡ e.grouping_expression
        → j ≡ k

  -- No configuration has the expression.
  abbrev IsNew : String → Dict String (ConfigEntry L) → Type 0
  IsNew x d = (k : String) (e : ConfigEntry L) → lookup k d ≡ some e → x ≢ e.grouping_expression

  expression_owner-none :
      (x : String) (d : Dict String (ConfigEntry L)) → expression_owner L x d ≡ none → IsNew x d
  unfolding expression_owner lookup
  expression_owner-none x [] h k e f = cc
  expression_owner-none x ((j, a) ∷ d) h k e f =
      let rest = λ (h : expression_owner L x d ≡ none). expression_owner-none x d h k e in
      ground (arith, rest, h, f)

  entry_of-group :
      (g : StaggerGroup) (parsed : Result L.Expr) (entry : ConfigEntry L)
      → entry_of L g parsed ≡ ok entry
      → entry.group ≡ g
  unfolding entry_of
  entry_of-group g (ok expr) entry h = ap group_in (sym h)
    where
      group_in : Result (ConfigEntry L) → StaggerGroup
      group_in (ok e) = e.group
      group_in _ = g
  entry_of-group g (err e) entry h = absurd (ground (arith, h))
  entry_of-group g panic entry h = absurd (ground (arith, h))

  -- An entry that could be made is that of its configuration, and its expression is new.
  pub new_config_entry_ok :
      (configs : Dict String (ConfigEntry L)) (g : StaggerGroup) (entry : ConfigEntry L)
      → new_config_entry L configs g ≡ ok entry
      → (entry.group ≡ g) × IsNew g.grouping_expression configs
  unfolding new_config_entry
  new_config_entry_ok configs g entry h =
      let owner : expression_owner L g.grouping_expression configs ≡ none = ground (arith, h) in
      (
        ground (arith, h, entry_of-group g (L.parse g.grouping_expression) entry),
        expression_owner-none g.grouping_expression configs owner,
      )

  -- A new classifier is consistent.
  pub new_pod_classifier-IsConsistent : IsConsistent (new_pod_classifier L)
  unfolding new_pod_classifier lookup
  new_pod_classifier-IsConsistent = record {
    names_known = tt;
    named = λ k e f. absurd (cc f);
    distinct = λ j k d e f _ _. absurd (cc f);
  }

  IsKnown-insert :
      (k : String) (entry : ConfigEntry L) (d : Dict String (ConfigEntry L)) (x : String)
      → IsKnown d x
      → IsKnown (insert k entry d) x
  IsKnown-insert k entry d x (e, f) = elim (Bool-cases (k == x)) [
    | inl same ↦ (entry, ground (arith, lookup-insert x k entry d, same))
    | inr other ↦ (e, ground (arith, lookup-insert x k entry d, other, f))
  ]

  -- A new entry under a name of its own, with a new expression, keeps what is known of the others.
  insert-named :
      (entry : ConfigEntry L) (d : Dict String (ConfigEntry L)) (k : String) (e : ConfigEntry L)
      → (lookup k d ≡ some e → e.name ≡ k)
      → lookup k (insert entry.name entry d) ≡ some e
      → e.name ≡ k
  insert-named entry d k e h f = ground (arith, lookup-insert k entry.name entry d, h, f)

  insert-distinct :
      (entry : ConfigEntry L) (dict : Dict String (ConfigEntry L)) (j k : String)
      (d e : ConfigEntry L)
      → IsNew entry.grouping_expression dict
      → (lookup j dict ≡ some d
          → lookup k dict ≡ some e
          → d.grouping_expression ≡ e.grouping_expression
          → j ≡ k)
      → lookup j (insert entry.name entry dict) ≡ some d
      → lookup k (insert entry.name entry dict) ≡ some e
      → d.grouping_expression ≡ e.grouping_expression
      → j ≡ k
  insert-distinct entry dict j k d e new h f f' x = ground (
    arith,
    lookup-insert j entry.name entry dict,
    lookup-insert k entry.name entry dict,
    new j d,
    new k e,
    h,
    f,
    f',
    x,
  )

  store_new-IsConsistent :
      (c : Classifier L) (g : StaggerGroup) (r : Result (ConfigEntry L))
      → r ≡ new_config_entry L c.configs g
      → lookup g.name c.configs ≡ none
      → IsConsistent c
      → IsConsistent (store_new L c r).1
  unfolding store_new
  store_new-IsConsistent c g (err e) h fresh i = i
  store_new-IsConsistent c g panic h fresh i = i
  store_new-IsConsistent c g (ok entry) h fresh i =
      let (same, new) = new_config_entry_ok c.configs g entry (sym h) in
      record {
        names_known =
            All-append _ c.config_names entry.name
              (All-map _ _ c.config_names (IsKnown-insert entry.name entry c.configs) i.names_known)
              (entry, ground (arith, lookup-insert entry.name entry.name entry c.configs));
        named = λ k e. insert-named entry c.configs k e (i.named k e);
        distinct =
            λ j k d e. insert-distinct entry c.configs j k d e (rw same new) (i.distinct j k d e);
      }

  -- Adding a configuration keeps the configurations consistent, also where it fails.
  pub add_config-IsConsistent :
      (g : StaggerGroup) (c : Classifier L) → IsConsistent c → IsConsistent (add_config L g c).1
  add_config-IsConsistent g c i = elim (Option-cases (lookup g.name c.configs)) [
    | inl fresh ↦
        subst (λ s. IsConsistent s.1) (sym (add_config_fresh fresh))
          (store_new-IsConsistent c g _ refl fresh i)
    | inr (e, taken) ↦ subst IsConsistent (sym (add_config_taken e taken)) i
  ]
    where
      add_config_fresh :
          lookup g.name c.configs ≡ none
          → add_config L g c ≡ store_new L c (new_config_entry L c.configs g)
      add_config_fresh h = unfold add_config in ground (arith, h)

      add_config_taken :
          (e : ConfigEntry L) → lookup g.name c.configs ≡ some e → (add_config L g c).1 ≡ c
      add_config_taken e h = unfold add_config in ground (arith, h)

  IsKnown-erase :
      (name : String) (d : Dict String (ConfigEntry L)) (x : String)
      → IsKnown d x
      → not (x == name) ≡ true
      → IsKnown (erase name d) x
  IsKnown-erase name d x (e, f) other = (e, ground (arith, lookup-erase x name d, f, other))

  lookup-erase-some :
      (name : String) (d : Dict String (ConfigEntry L)) (k : String) (e : ConfigEntry L)
      → lookup k (erase name d) ≡ some e
      → lookup k d ≡ some e
  lookup-erase-some name d k e f = ground (arith, lookup-erase k name d, f)

  -- Removing a configuration keeps the configurations consistent, also where it fails.
  pub remove_config-IsConsistent :
      (name : String) (c : Classifier L) → IsConsistent c → IsConsistent (remove_config L name c).1
  remove_config-IsConsistent name c i = elim (Option-cases (lookup name c.configs)) [
    | inl missing ↦ subst IsConsistent (sym (remove_missing missing)) i
    | inr (e, there) ↦ subst IsConsistent (sym (remove_there e there)) (record {
      names_known = All-filter_by _ _ _ c.config_names (IsKnown-erase name c.configs) i.names_known;
      named = λ k e f. i.named k e (lookup-erase-some name c.configs k e f);
      distinct = λ j k d e f f'.
          i.distinct j k d e (lookup-erase-some name c.configs j d f)
            (lookup-erase-some name c.configs k e f');
    })
  ]
    where
      remove_missing : lookup name c.configs ≡ none → (remove_config L name c).1 ≡ c
      remove_missing h = unfold remove_config in ground (arith, h)

      remove_there :
          (e : ConfigEntry L)
          → lookup name c.configs ≡ some e
          → (remove_config L name c).1 ≡ record c {
            configs = erase name c.configs;
            config_names = filter_by (λ n. not (n == name)) c.config_names;
          }
      remove_there e h = unfold remove_config in ground (arith, h)
