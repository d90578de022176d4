-- ===== src/Controller/Classifier/External.antt =====
-- The libraries that the classifier calls: JSON paths (ojg/jp), label selectors (apimachinery), a
-- cache whose entries expire (patrickmn/go-cache), and MD5 in hexadecimal.
use straggler.Base.{ℕ, ◌+◌, ◌≡◌, ◌≢◌, String, List, Option, none, some, Bool, leb, if◌then◌else◌}
use straggler.Base.Dict.{GoMap}
use straggler.Base.Result.{Result}
use straggler.Kube.{ObjectMeta, PodSpec}

pub record Libraries : Type 1 where
  -- `jp.ParseString`, `Expr.Get` on a pod of that metadata and spec, and `%v` of a value.
  pub Expr : Type 0
  pub Value : Type 0
  pub parse : String → Result Expr
  pub get : Expr → ObjectMeta → PodSpec → List Value
  pub print_value : Value → String
  -- `labels.SelectorFromSet`, `Matches` and `Empty`.
  pub Selector : Type 0
  pub selector_from_set : GoMap → Selector
  pub matches : Selector → GoMap → Bool
  pub is_empty : Selector → Bool
  -- `cache.New`, `Get` and `Set` with the default expiration, at a time.
  pub Cache : Type 0 → Type 0
  pub new_cache : (V : Type 0) → Cache V
  pub cache_get : {V : Type 0} → ℕ → String → Cache V → Option V
  pub cache_set : {V : Type 0} → ℕ → String → V → Cache V → Cache V
  pub md5_hex : String → String

-- The default expiration of the classifier's caches, 30 minutes.
abbrev pub expiration : ℕ
expiration = 1_800_000_000_000

-- What the cache promises: an entry is there until it expires, and no other entry is touched.
pub record IsCache (L : Libraries) : Type 1 where
  pub get-new :
      (V : Type 0) (now : ℕ) (k : String) → L.cache_get {V = V} now k (L.new_cache V) ≡ none
  pub get-set_self :
      (V : Type 0) (now later : ℕ) (k : String) (v : V) (c : L.Cache V)
      → L.cache_get later k (L.cache_set now k v c)
        ≡ (if leb later (now + expiration) then some v else none)
  pub get-set_ne :
      (V : Type 0) (now later : ℕ) (j k : String) (v : V) (c : L.Cache V)
      → j ≢ k
      → L.cache_get later j (L.cache_set now k v c) ≡ L.cache_get later j c
