-- ===== src/Kube.antt =====
-- The fields of the Kubernetes types `corev1.Pod`, `corev1.PodSpec`, `corev1.Container` and
-- `metav1.ObjectMeta` that the program reads or writes. Labels and node selectors may be nil maps.
use straggler.Base.{ℕ, List, String, Eq, string_dec, ap}
use mathlib.Core.Logic.{dite}
use straggler.Base.Dict.{GoMap}

-- `corev1.Container`; `resources` stands for the fields that the program leaves alone.
pub record Container : Type 0 where
  pub name : String
  pub image : String
  pub command : List String
  pub args : List String
  pub volume_mounts : List String
  pub resources : String

pub record PodSpec : Type 0 where
  pub node_selector : GoMap
  pub init_containers : List Container
  pub containers : List Container

-- A time is the number of nanoseconds since the zero time, so `IsZero` is a test for 0.
pub record ObjectMeta : Type 0 where
  pub name : String
  pub generate_name : String
  pub namespace : String
  pub uid : String
  pub labels : GoMap
  pub creation_timestamp : ℕ

pub record Condition : Type 0 where
  pub kind : String
  pub status : String

pub record Pod : Type 0 where
  pub meta : ObjectMeta
  pub open meta use *
  pub spec : PodSpec
  pub conditions : List Condition

-- `apitypes.NamespacedName`, which is also `client.ObjectKey`.
pub record NamespacedName : Type 0 where
  pub name : String
  pub namespace : String

unfoldable pub NamespacedName-discrete : Discrete NamespacedName
NamespacedName-discrete a b =
    dite (string_dec a.name b.name)
      (λ p.
        dite (string_dec a.namespace b.namespace)
          (λ q. yes (λ i. record { name = p i; namespace = q i }))
          (λ n. no (λ e. n (ap (λ (k : NamespacedName). k.namespace) e))))
      (λ n. no (λ e. n (ap (λ (k : NamespacedName). k.name) e)))

instance abbrev pub NamespacedName_eq : Eq NamespacedName
NamespacedName_eq = record { dec = NamespacedName-discrete }
