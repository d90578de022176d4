-- ===== src/Blocker/StubPod.antt =====
-- pkg/blocker/stubpod.go: the blocker that hollows out all containers and appends an init container
-- which never ends.
pub mod Laws
use straggler.Base.{
  List, [], ◌∷◌, ◌++◌, String, Bool, true, false, ◌&&◌, map, ◌==◌, string_eq, if◌then◌else◌,
}
use straggler.Base.Result.{Result, ok, err, errorf}
use straggler.Kube.{Container, PodSpec}
use straggler.Blocker.{PodBlocker}

-- The body of the loop over the init containers.
unfoldable pub hollow_init_container : String → Container → Container
hollow_init_container image container = record container {
  image = image;
  command = [];
  args = "initcontainer" ∷ [];
  volume_mounts = [];
}

-- The body of the loop over the containers.
unfoldable pub hollow_container : String → Container → Container
hollow_container image container = record container {
  image = image;
  command = [];
  args = [];
  volume_mounts = [];
}

abbrev pub stagger_container : String → Container
stagger_container image = record {
  name = "stagger";
  image = image;
  command = [];
  args = "container" ∷ [];
  volume_mounts = [];
  resources = "";
}

unfoldable pub block : String → PodSpec → Result PodSpec
block image spec = ok (record spec {
  init_containers =
      map (hollow_init_container image) spec.init_containers ++ stagger_container image ∷ [];
  containers = map (hollow_container image) spec.containers;
})

unfoldable pub unblock : PodSpec → Result PodSpec
unblock spec = err (errorf "not supported")

-- The loop of IsBlocked.
unfoldable pub has_stagger_container : String → List Container → Bool
has_stagger_container image [] = false
has_stagger_container image (container ∷ rest) =
    if container.name == "stagger" && container.image == image
    then true
    else has_stagger_container image rest

unfoldable pub is_blocked : String → PodSpec → Bool
is_blocked image spec = has_stagger_container image spec.init_containers

-- NewStubPod
unfoldable pub new_stub_pod : String → PodBlocker
new_stub_pod image = record {
  block = block image;
  unblock = unblock;
  is_blocked = is_blocked image;
}
