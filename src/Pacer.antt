-- ===== src/Pacer.antt =====
-- pkg/pacer/types/types.go: the classification of a group's pods, the interface of a pacer, and the
-- contract that an implementation of `Pace` has to meet.
pub mod Slice
pub mod Exponential
pub mod Linear
pub mod Composite
pub mod Limits
pub mod Order
pub mod Progress
use mathlib.Core.List.{Perm, Sublist}
use straggler.Base.{◌<◌, ◌≤◌, ◌≡◌, List, String, length, arith}
use straggler.Base.Result.{Result, ok}
use straggler.Kube.{Pod}

pub record PodClassification : Type 0 where
  pub ready : List Pod
  pub starting : List Pod
  pub blocked : List Pod

-- `pace` returns the pods that it allows, and the blocked pods in the order in which it leaves
-- the caller's slice: a pacer may sort that slice in place.
pub record Pacer : Type 0 where
  pub pace : PodClassification → Result (List Pod × List Pod)
  pub id : String

pub record PacerFactory : Type 0 where
  pub new : String → Pacer

-- Go's `len` of a slice is an `int`.
pub record Fits (c : PodClassification) : Type 0 where
  pub ready_fits : length c.ready < 0x8000_0000_0000_0000
  pub starting_fits : length c.starting < 0x8000_0000_0000_0000
  pub blocked_fits : length c.blocked ≤ 0x20_0000_0000_0000

-- The answer names blocked pods only, and each at most once per occurrence, in the order in which it
-- leaves them; no blocked pod is lost or made up.
pub record Serves (c : PodClassification) (allowed blocked : List Pod) : Type 0 where
  pub same_pods : Perm blocked c.blocked
  pub from_blocked : Sublist allowed blocked

-- On `c` the pacer returns, without an error or a panic, an answer that serves `c`.
abbrev pub Meets : Pacer → PodClassification → Type 0
Meets p c =
    (allowed : List Pod) × (blocked : List Pod) × (p.pace c ≡ ok (allowed, blocked))
    × Serves c allowed blocked

abbrev pub IsLawful : Pacer → Type 0
IsLawful p = (c : PodClassification) → Fits c → Meets p c

-- A pacer gives one answer.
pub same_allowed :
    {r : Result (List Pod × List Pod)} {a b a' b' : List Pod}
    → r ≡ ok (a, b)
    → r ≡ ok (a', b')
    → a ≡ a'
same_allowed e e' = ground (arith, e, e')
