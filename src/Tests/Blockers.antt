-- ===== src/Tests/Blockers.antt =====
-- The two blockers on a small pod: a pod is seen as blocked after it is blocked, and not before, and
-- the blocker by node selector gives it back.
use straggler.Base.{◌≡◌, refl, [], true, false, some, string_dec}
use straggler.Base.Dict.{lookup, insert, erase}
use straggler.Base.Result.{ok, ◌>>=◌}
use straggler.Blocker.StubPod.{new_stub_pod}
use straggler.Blocker.StubPod as StubPod
use straggler.Blocker.NodeSelector.{default_node_selector, block, unblock, is_blocked}
use straggler.Tests.{spec}

stub_before : (new_stub_pod "stub:1").is_blocked spec ≡ false
unfolding new_stub_pod StubPod.is_blocked StubPod.has_stagger_container string_dec
stub_before = refl

stub_after :
    ((new_stub_pod "stub:1").block spec >>= λ s. ok ((new_stub_pod "stub:1").is_blocked s))
    ≡ ok true
unfolding new_stub_pod StubPod.is_blocked StubPod.has_stagger_container StubPod.block string_dec
stub_after = refl

selector_before : is_blocked default_node_selector spec ≡ false
unfolding is_blocked
selector_before = refl

selector_after :
    (block default_node_selector spec >>= λ s. ok (is_blocked default_node_selector s)) ≡ ok true
unfolding is_blocked block lookup insert string_dec
selector_after = refl

selector_back :
    (block default_node_selector spec >>= unblock default_node_selector)
    ≡ ok (record spec { node_selector = some [] })
unfolding unblock block erase insert string_dec
selector_back = refl
