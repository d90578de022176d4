-- ===== src/Blocker/NodeSelector.antt =====
-- pkg/blocker/nodeselector.go: the blocker that asks for a node which does not exist.
pub mod Laws
use straggler.Base.{String, Bool, false, true, Option, none, some}
use straggler.Base.Dict.{GoMap, get_key, set_key, delete_key, make_if_nil}
use straggler.Base.Result.{Result, ok, ◌>>=◌}
use straggler.Kube.{PodSpec}
use straggler.Blocker.{PodBlocker}

pub record NodeSelectorPodBlocker : Type 0 where
  pub node_selector_label_name : String
  pub node_selector_label_value : String

unfoldable pub block : NodeSelectorPodBlocker → PodSpec → Result PodSpec
block b spec = do
  selector ←
      set_key b.node_selector_label_name b.node_selector_label_value
        (make_if_nil spec.node_selector)
  ok (record spec { node_selector = selector })

unfoldable pub unblock : NodeSelectorPodBlocker → PodSpec → Result PodSpec
unblock b spec = elim spec.node_selector [
  | none ↦ ok spec
  | some d ↦ ok (record spec { node_selector = delete_key b.node_selector_label_name (some d) })
]

unfoldable pub is_blocked : NodeSelectorPodBlocker → PodSpec → Bool
is_blocked b spec = elim spec.node_selector [
  | none ↦ false
  | some d ↦ elim (get_key b.node_selector_label_name (some d)) [ none ↦ false | some v ↦ true ]
]

-- NewNodeSelectorPodBlocker
abbrev pub default_node_selector : NodeSelectorPodBlocker
default_node_selector = record {
  node_selector_label_name = "v1.straggler.technicianted/doNotSchedule";
  node_selector_label_value = "";
}

-- The blocker as a value of the interface.
unfoldable pub new_node_selector_pod_blocker : NodeSelectorPodBlocker → PodBlocker
new_node_selector_pod_blocker b = record {
  block = block b;
  unblock = unblock b;
  is_blocked = is_blocked b;
}
