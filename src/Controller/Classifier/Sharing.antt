-- ===== src/Controller/Classifier/Sharing.antt =====
-- Configurations that give a pod the same grouping key share the pacer of the first.
use straggler.Base.{
  ℕ, ◌+◌, ◌≡◌, refl, ap, [], ◌∷◌, String, none, some, true, leb, arith, ◌∙◌, if◌then◌else◌,
  string_eq,
}
use straggler.Base.Dict.{lookup}
use straggler.Base.Result.{ok}
use straggler.Kube.{ObjectMeta, PodSpec}
use straggler.Pacer.{Pacer}
use straggler.Controller.Classifier.External.{Libraries, IsCache, expiration}
use straggler.Controller.Classifier.{ConfigEntry, Classifier}
use straggler.Controller.Classifier.Classify.{
  grouping_key, pacer_for, match_keyed, match_name, match_names,
}

module _ {L : Libraries} (K : IsCache L) (now : ℕ) (meta : ObjectMeta) (spec : PodSpec) where
  -- Two configurations that give a pod the same key are both matched with the same pacer, which the
  -- cache has or the first of them makes: the pacer of the second is not asked for.
  pub match_names_same_key :
      (c : Classifier L) (n n' key : String) (config config' : ConfigEntry L)
      → lookup n c.configs ≡ some config
      → lookup n' c.configs ≡ some config'
      → grouping_key L config meta spec ≡ some key
      → grouping_key L config' meta spec ≡ some key
      → let pacer = pacer_for L config key (L.cache_get now key c.pacers_by_key) in
        (match_names L now meta spec (n ∷ n' ∷ []) [] c).0
        ≡ ok ((pacer, config) ∷ (pacer, config') ∷ [])
  unfolding match_names match_keyed pacer_for
  match_names_same_key c n n' key config config' found found' keyed keyed' =
      let pacer = pacer_for L config key (L.cache_get now key c.pacers_by_key) in
      let fresh : leb now (now + expiration) ≡ true = ground arith in
      let cached : L.cache_get now key (L.cache_set now key pacer c.pacers_by_key) ≡ some pacer =
        K.get-set_self Pacer now now key pacer c.pacers_by_key
        ∙ ap (λ b. if b then some pacer else none) fresh in
      rw (match_name, found, keyed, found', keyed', cached) refl
