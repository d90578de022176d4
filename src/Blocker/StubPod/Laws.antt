-- ===== src/Blocker/StubPod/Laws.antt =====
-- What a stub keeps of a pod, and how it is told from other pods.
use straggler.Base.{◌≡◌, refl, List, [], ◌∷◌, ◌++◌, String, true, arith, string_eq}
use straggler.Kube.{Container}
use straggler.Blocker.{Blocks}
use straggler.Blocker.StubPod.{
  stagger_container, block, has_stagger_container, is_blocked, new_stub_pod,
}

has_stagger_container-append :
    (image : String) (cs : List Container)
    → has_stagger_container image (cs ++ stagger_container image ∷ []) ≡ true
unfolding has_stagger_container
has_stagger_container-append image [] = ground arith
has_stagger_container-append image (c ∷ cs) = ground (arith, has_stagger_container-append image cs)

-- The stub blocker succeeds to block every pod, and sees what it blocked as blocked.
pub new_stub_pod-Blocks : (image : String) → Blocks (new_stub_pod image)
unfolding new_stub_pod block is_blocked
new_stub_pod-Blocks image = record {
  block_succeeds = λ spec. (_, refl, has_stagger_container-append image _);
}
