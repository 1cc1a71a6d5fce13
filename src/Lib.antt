-- ===== src/Lib.antt =====
-- kube-snapshot: the controllers that save the containers of Kubernetes pods as images, and the
-- webhook that starts new pods from those images.
--
-- The program. A SnapshotPod names a pod, by its name or by labels. The SnapshotPod reconciler
-- (internal/controller/snapshotpod_controller.go) creates, for a new trigger round, one
-- SnapshotPodTask for each container, and copies what becomes of the tasks to its status. On each
-- node a task reconciler (internal/controller/snapshotpodtask_controller.go) commits the container
-- with the node's container engine (internal/controller/runtime) and pushes the image. The webhook
-- (internal/webhooks/pod.go) starts a round when a pod is deleted, and puts the images of its
-- snapshots into a pod that is created. The parts meet in the objects of the API server, which both
-- reconcilers read and write; internal/metrics counts what they do.
--
-- The files.
--   Base, and Base/*: lists, texts, Booleans and integers, with the helpers of the `lo` package.
--   Api: the types of api/v1alpha1 and what the program reads of the Kubernetes types.
--   World: the calls that the program makes, the environment that answers them, and the monad of
--     the program. World/Logic: a program logic for it, by which an action returns, without a
--     panic, and makes only calls of a kind. World/Calls: the same for the calls alone, of actions
--     that may panic. World/State: claims on the trace before and after an action, and
--     World/Ensures: the same of actions that may panic. World/Count: how many commands an action
--     runs.
--   Main: cmd/main.go, as a function of its flags. Main/Roles, Main/Failures and Main/Started: what
--     it may set up, which calls fail, and what it has set up once it finishes.
--   Lifecycle: the reconcilers and the webhook together.
--   Metrics: internal/metrics/metrics.go. Metrics/Collector: internal/metrics/collector.go, and
--     Metrics/Counts what it counts, Metrics/Ticks how often. The loop of `Start` is a function of
--     the ticks and the end of the context, in the order in which `select` takes them.
--   Runtime: internal/controller/runtime, the commands of docker and nerdctl, and Runtime/Setup the
--     constructors with the version checks. Runtime/Quiet, Runtime/Login, Runtime/Versions and
--     Runtime/Success are about what they call, how a login is undone, what the versions decide,
--     and the commands where nothing fails; Runtime/Effort counts commands.
--   Condition: the conditions that both reconcilers find or add; Condition/Types which types they
--     have, and Condition/Done which steps they record as done.
--   Task/Steps, Task/Loop, Task/Reconcile: snapshotpodtask_controller.go, by `reconcilePushImage`,
--     `reconcileCommit` and `reconcileAccept`, the loop of `Reconcile` over them, and the rest of
--     `Reconcile`; Task/Setup: its `SetupWithManager`. Task/Machine is the abstract machine of a
--     task, and Task/Server a server that holds a task; the other files of Task prove what the
--     reconciler does: Served, Moves, Live, Refines, Phases, Refined, Safe, Completes and Bounded
--     against such a server, the rest in any environment.
--   Pod/Target, Pod/Image, Pod/Tasks, Pod/Status, Pod/Reconcile: snapshotpod_controller.go, by
--     `getPod` and `validate`, `withRandomTag` and `renderNewImageName`, `reconcileTasks`,
--     `reconcileTasksStatus` and `Reconcile`; Pod/Setup: its `SetupWithManager`. Pod/Machine is the
--     abstract machine of a trigger round, and Pod/Server a server that holds a SnapshotPod;
--     Refined, Kept, Steady, Live, Closing, Opening, Entries, Begun, Ending and Stalled prove what
--     any number of calls of `Reconcile` do against such a server, the other files of Pod what the
--     steps do in any environment.
--   Webhook/Match, Webhook/Images, Webhook/Handle: internal/webhooks/pod.go, by the choice of the
--     SnapshotPod, the choice of the images, and `Handle` with both handlers; Webhook/Setup: its
--     `SetupWebhookWithManager`. The other files of Webhook prove what they do.
--   Tests: a concrete environment, its objects, and the theorems at them.
-- A Go function keeps its name, in snake_case. A function that changes an object through a pointer
-- returns the object; an error is a value of `Option Error` or `Result`; a panic is an exit of the
-- monad. The body of a loop and the branches of a long function have names of their own.
--
-- The environment `Env` is a parameter. It has the API server, the clock, the commands, the file
-- system, uuids, JSON decoding, image references, durations, the order of a range over a map, and
-- `sort.Slice`; and in `Host`, for the start-up, environment variables, files, the outputs of
-- commands, the comparison of versions, and the errors of controller-runtime. Each answer may
-- depend on all calls made before it, so that other clients may write at any time. What a theorem
-- asks of the environment stands in its hypotheses: `Echoes`, that the answer to a status update is
-- the object with that status; `KeepsCreated`, that the answer to a create has the name and the
-- image of the task; `HasUuids`, that a uuid has eight characters besides its dashes; `IsSortOf`,
-- that a sort sorts; `Server`, that the API server gives the one object that it holds, accepts each
-- update of its status, and has no other client; `CommandsSucceed` and `Succeeds`, that no command,
-- file or secret fails; `Connects`, that nerdctl prints a version and a client of containerd is
-- made; `CreatesAll`, that each create of a task is answered with a task; `HasTarget` and
-- `LacksTarget`, that the pod to be found is there, or is not; `ListsEnds`, that a listing has, for
-- each snapshot that has not ended, a task that has; `ListsKeys`, that a range over a map visits
-- its keys.
--
-- Bounds. Loops are over lists and need no fuel; `reconciles` makes as many calls as its argument
-- says. int32 counters wrap (`inc32`). Times are nanoseconds since Go's zero time, and durations
-- are unbounded, where those of Go saturate.
--
-- Not modelled: the parsing of the command line and the registration of the scheme in cmd/main.go,
-- where the model starts from the values of the flags; the interleaving of the goroutines, each of
-- which is a function of its own (`serve_webhook`, the loop of the collector); the deep copies of
-- api/v1alpha1, which are generated; logging and events; the helpers of the end-to-end tests.
mod Base
pub mod Api
pub mod World
pub mod Metrics
pub mod Runtime
pub mod Condition
pub mod Task
pub mod Pod
pub mod Webhook
pub mod Lifecycle
pub mod Main
mod Tests
