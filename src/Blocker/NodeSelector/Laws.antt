-- ===== src/Blocker/NodeSelector/Laws.antt =====
-- The node selector blocker: `block` is seen by `is_blocked`, and `unblock` takes it back.
use straggler.Base.{◌≡◌, refl, [], ◌∷◌, String, none, some, false, arith, string_eq}
use straggler.Base.Dict.{Dict, lookup, insert, erase, lookup-insert, get_key, entries, make_if_nil}
use straggler.Base.Result.{ok}
use straggler.Kube.{PodSpec}
use straggler.Blocker.{Blocks}
use straggler.Blocker.NodeSelector.{
  NodeSelectorPodBlocker, block, unblock, is_blocked, new_node_selector_pod_blocker,
}

erase_absent : (k : String) (d : Dict String String) → lookup k d ≡ none → erase k d ≡ d
unfolding lookup erase
erase_absent k [] h = refl
erase_absent k ((j, v) ∷ d) h = ground (arith, erase_absent k d)

erase-insert :
    (k v : String) (d : Dict String String) → lookup k d ≡ none → erase k (insert k v d) ≡ d
unfolding lookup erase insert
erase-insert k v [] h = ground arith
erase-insert k v ((j, w) ∷ d) h = ground (arith, erase-insert k v d)

block_lem :
    (b : NodeSelectorPodBlocker) (spec : PodSpec)
    → block b spec
      ≡ ok (record spec {
        node_selector = some (
            insert b.node_selector_label_name b.node_selector_label_value
              (entries spec.node_selector));
      })
unfolding block
block_lem b spec = ground arith

-- A blocked pod is seen as blocked, and a nil selector is no obstacle.
pub new_node_selector_pod_blocker-Blocks :
    (b : NodeSelectorPodBlocker) → Blocks (new_node_selector_pod_blocker b)
unfolding new_node_selector_pod_blocker is_blocked
new_node_selector_pod_blocker-Blocks b = record {
  block_succeeds = λ spec. (
    _,
    block_lem b spec,
    ground (
      arith,
      lookup-insert b.node_selector_label_name b.node_selector_label_name
          b.node_selector_label_value (entries spec.node_selector),
    ),
  );
}

-- A pod that does not have the label in its node selector is blocked with success, and unblocking
-- it gives the pod back, with an empty selector for a nil one. What is given back is not seen as
-- blocked.
pub unblock-block :
    (b : NodeSelectorPodBlocker) (spec : PodSpec)
    → get_key b.node_selector_label_name spec.node_selector ≡ none
    → (blocked : PodSpec) × (block b spec ≡ ok blocked)
      × (unblock b blocked ≡ ok (record spec { node_selector = make_if_nil spec.node_selector }))
      × (is_blocked b (record spec { node_selector = make_if_nil spec.node_selector }) ≡ false)
unfolding unblock is_blocked
unblock-block b spec h = (
  _,
  block_lem b spec,
  ground (
    arith,
    erase-insert b.node_selector_label_name b.node_selector_label_value (entries spec.node_selector)
        h,
  ),
  ground arith,
)
