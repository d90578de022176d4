-- ===== src/Blocker.antt =====
-- pkg/blocker/types/types.go: the interface of a pod blocker.
pub mod StubPod
pub mod NodeSelector
use straggler.Base.{Bool, true, false, ◌≡◌}
use straggler.Base.Result.{Result, ok}
use straggler.Kube.{PodSpec}

-- `block` and `unblock` return the pod spec as they leave it.
pub record PodBlocker : Type 0 where
  pub block : PodSpec → Result PodSpec
  pub unblock : PodSpec → Result PodSpec
  pub is_blocked : PodSpec → Bool

-- What the controllers need of a blocker: `block` succeeds, and its result is seen as blocked.
pub record Blocks (b : PodBlocker) : Type 0 where
  pub block_succeeds :
      (spec : PodSpec) → (spec' : PodSpec) × (b.block spec ≡ ok spec') × (b.is_blocked spec' ≡ true)
