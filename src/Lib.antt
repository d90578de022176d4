-- ===== src/Lib.antt =====
-- straggler, a Kubernetes controller that staggers the start of pods, modelled and verified.
--
-- The program. A webhook (pkg/controller/admission.go) sees each new pod. A classifier
-- (pkg/controller/classifier.go) finds the group of the pod from the configurations, and the group's
-- pacer (pkg/pacer) decides from the ready, the starting and the blocked pods of the group
-- (pkg/controller/podgroupstandingclassifier.go) whether the pod may start. If not, a blocker
-- (pkg/blocker) changes its spec so that it cannot. Later the reconciler
-- (pkg/controller/reconciler.go) asks the pacer again and evicts the blocked pods that it allows, so
-- that their owners make them anew.
--
-- The files.
--   Base        what all share: lists and tests over native numbers; Base.Int has Go's 64-bit
--               integers with their wrap-around, Base.Dict Go's maps, nil ones included,
--               Base.Result errors and panics as values, Base.State functions that change a state,
--               Base.Sorting the contract of sort.Slice, Base.Counts lengths, Base.Strings slices
--               of strings, Base.Float float64 as an interface
--   Kube        the fields of the Kubernetes types that are read or written
--   Pacer       pkg/pacer/types: `Pacer` and its contract `Meets`; Pacer.Slice slice expressions,
--               Pacer.Exponential, Pacer.Linear and Pacer.Composite the three pacers, whose `pace` is
--               Pace, with what is proved of them in their modules Laws and Counting, and in Pacer.Limits
--               how many pods they leave starting, in Pacer.Order that their order matters, and in Pacer.Progress
--               that they let a group go on
--   Blocker     pkg/blocker/types: `PodBlocker` and its contract `Blocks`; Blocker.StubPod and
--               Blocker.NodeSelector the two blockers
--   Controller  Controller.Types the interfaces of pkg/controller/types, as records of functions over
--               a world; Controller.Standing podgroupstandingclassifier.go; Controller.Classifier
--               classifier.go, with Classify and ClassifyByGroupID in its child Classify and the
--               libraries that it calls in External, the choice of the configurations of a pod in
--               Applying, its invariant in Configs, and its
--               configurations as the interface PodClassifierConfigurator shows them in Configurator;
--               Controller.Admission handlePodAdmission of admission.go, its child Job
--               handleJobAdmission and Default;
--               Controller.Reconciler reconciler.go; Controller.Jobs the webhook and the reconciler
--               together, Controller.Rollout both over time, as a step relation on the pods of a group,
--               and its child Rounds in rounds: a run of the reconciler, the new pods, their start;
--               Controller.Flights the locked parts of flightracker.go, with its children
--               Registration on WaitOne and Landing on Reconcile, and Steps the tracker under
--               concurrent calls, in Steps.Timed with the timer of the evicter; Controller.Recorder recorder.go
--   Setup       pkg/cmd/config.go and factories.go, and the constructors of the two controllers; its
--               children Options options.go, and Startup cmd.go up to NewCMD, with the registrations in
--               Startup.Register, and Labels the webhook and the reconciler with the labels they are made with
--   Cli         cmd/straggler: Cli.Flags utils.go, whose child Service has the options' flags, Cli.Service
--               Start and Stop of cmd.go and the commands, and Cli.Telemetry the rest of root.go and
--               pkg/metrics
--   Tests       runs on a small cluster, and the theorems at concrete data
--
-- The correspondence. A function of the source is a definition of the same name in lower case, and
-- a long one is several definitions that call each other in the order of the code. A Go error is `err`
-- and a run-time panic is `panic`, so a theorem that says `ok` excludes both. What a call changes is
-- explicit: the webhook's pod, the classifier's state, the slice that a pacer may sort in place, and a
-- world `W` that stands for the API server and for other goroutines. A time is a number of
-- nanoseconds, and a call that reads the clock takes it as `now`.
--
-- The bounds. Lengths are `int`s below 2^63, and the length of the blocked pods is at most 2^53 where
-- the linear pacer takes it through float64, which is exact up to there; `Fits` says so, and no
-- cluster is near. All recursion is on lists; only the printing of a number has fuel, one step more
-- than its value, where the number of its digits would do.
--
-- Parameters. float64 (`FloatOps`, with `IsIeee` where its exactness matters), sort.Slice (`IsSort`),
-- the API client, JSON paths, label selectors, the expiring cache (`IsCache`), MD5 (`Libraries`), the
-- manager, files and YAML (`Platform`) and pflag (`FlagSet`) are not in the repository; each hypothesis
-- about them holds of a concrete instance in Tests or Base.
--
-- Not modelled: zap's loggers, the usage template and the HTTP servers of metrics and profiles, which do
-- not change what is decided; the generated mocks; the mutex of the classifier, whose
-- calls are taken one after the other. Controller.Rollout takes the calls of the webhook and of the
-- reconciler whole, one after the other, and the list of the group's pods as fresh once the tracker's
-- wait is over, and so leaves out admissions that overlap and what a stale cache shows; its rounds take the webhook's
-- view of a new pod, without a creation time, and all evictions before the first new pod.
pub mod Base
pub mod Kube
pub mod Pacer
pub mod Blocker
pub mod Controller
pub mod Setup
pub mod Cli
pub mod Tests
