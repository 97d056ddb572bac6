-- ===== src/Lib.antt =====
-- cloudtty: an operator that gives each CloudShell resource a pod in which a web terminal runs. Pods
-- are kept in a pool and lent to shells.
--
-- The parts and their interplay. The controller (pkg/controllers) takes keys of CloudShells from a
-- work queue and reconciles them: it borrows a pod from the pool (`Borrow`), makes a route to it,
-- starts the terminal in it, and gives it back (`Back`) when the shell ends. The pool
-- (pkg/workerpool) keeps two queues, of idle workers and of waiting requests. Its goroutines take
-- workers in as their pods become ready, answer waiting requests, and delete surplus workers. The
-- controller and the pool share the work queue of the controller, to which the pool adds the shell
-- of a request that can be answered.
--
-- Base           shared names: tests, lists, maps, error results, integers
-- Text           what the code uses of strings, strconv and fmt
-- Objects        the Kubernetes objects, and pkg/apis/cloudshell/v1alpha1/types.go
-- Cluster        the operations that the repository calls and does not implement, as the record
--                `Env`, with the documented behaviour of `RetryOnConflict` and of the finalizer
--                helpers; Cluster/Monad has the state and the actions on it
-- Resources      `ResourceSetting` of pkg/apis/cloudshell/v1alpha1/types.go
-- Manifests      pkg/manifests/manifests.go, and the structures that fill the templates
-- Queue          pkg/workerpool/queue.go: `newQueue`, `Add`, `Len`, `Get`, `Remove`, `Has`, `All`
-- Pods           pkg/utils/pod.go
-- WorkerPool     pkg/workerpool/worker_pool.go, with pkg/utils/util.go and pkg/utils/service.go: Keys
--                (`WorkerKeyFunc`, `SplitWorkerKey`), Matching (`matchWorkerFor`, `matchRequestFor`),
--                Creation (`createWorker`, `CreateServiceFor`, `deleteWorker`), Lending (`Borrow`,
--                `Back`), Serving (`enqueue`, `processNextCluster`, `reconcile`,
--                `handleRequestQueue`), Scaling (`scaleInWorkerQueue`), Invariant (histories), Running
--                (`run`, `worker`, `tryHandleRequestQueue`, `tryScaleInWorkerQueue`)
-- Controller     pkg/controllers, with pkg/apis/cloudshell/v1alpha1/defaults.go: Paths, Hosts, Labels,
--                Defaults, RouteLists, Routes, Nodes, Services, Startup,
--                Sync, Events (`processNextItem`, the informers' handlers), Settings, Running (`Run`,
--                `worker`)
-- Generated      Informers: pkg/generated/informers/externalversions, the factory of shared informers;
--                DeepCopy: pkg/apis/cloudshell/v1alpha1/zz_generated.deepcopy.go;
--                Listers: pkg/generated/listers; Clientset:
--                pkg/generated/clientset/versioned, how its clients are made
-- Command        cmd/app: `Validate`, Config (`NewOptions`, `Flags`, `Config`), Manager (`Run`,
--                `StartControllers`), Starting (what the command starts), Wiring (the informer of
--                shells, from `StartControllers` to `New` of the controller), Clients (the client
--                of shells)
-- Version        pkg/version
-- Tests          a small cluster, and the theorems on it
--
-- The state. A `World` holds the pool's two queues, the calls that other goroutines see (on work
-- queues, and sends on `matchRequestSignal`; the latest first), and the state of the cluster, of which
-- nothing is assumed: any two reads may differ. An operation is a function from a world to a result
-- and a world. An error leaves what was done before. A panic, at a nil pointer or an index out of
-- range, is the error `panic`. A Go variable that a closure of `RetryOnConflict` shares with its
-- function is passed through the retries. A pointer that a call writes is returned. The code
-- works on the listers' own objects: what `Borrow` and `Back` write to a pod is `write_pod`, and what
-- the controller writes to a shell is `write_shell`. `CacheIsShared` and `ShellCacheIsShared` say
-- what the caches give then. Fields that are written with nothing in between that can fail are one
-- write. The generated deep copies alone are on a heap of addressed cells, Generated/DeepCopy/Heap;
-- elsewhere `DeepCopy` of a shell is the shell, as a value.
--
-- Bounds. Loops are over lists and recurse on them; only `RetryOnConflict` repeats, and it is a
-- parameter. Numbers are unbounded, but for the time to live, which is an int64 that may wrap. The
-- number of deletions is exact in float64 for fewer than 2^50 workers. The pool's limits are natural
-- numbers, since `Options.Validate` refuses negative ones. Texts are lists of characters, of one
-- byte each where the code counts bytes.
--
-- The goroutines of the pool are a state machine in WorkerPool/Running: a state has the world, a
-- program counter for each of the three goroutines and for `run`, and the number of callers at a send.
-- A choice is one goroutine's turn, a send that meets its receiver, a call of `Borrow` or `Back`, an
-- event of the informer, or the closing of the stop channel; `turn` is a function on the state, and a
-- `Turns` is any sequence of turns. Controller/Running puts the controller's workers and its `Run`
-- beside them: there the workers are the callers of `Borrow` and `Back`, a move is one goroutine's,
-- and a reconcile is one move, its sends at its end. There is no fuel: a path is finite, and has no fixed
-- length.
--
-- Not modelled: logging; the interleaving of the steps within one operation, so that an operation
-- runs up to its sends before the next starts; the wait for the informers' caches; the
-- flags' names, the profiling server and the cobra command; the requests of the generated clients,
-- and vendored libraries, whose calls are parameters.
pub mod Base
pub mod Queue
pub mod Text
pub mod Objects
pub mod Resources
pub mod Cluster
pub mod Manifests
pub mod Pods
pub mod WorkerPool
pub mod Controller
pub mod Generated
pub mod Command
pub mod Version
pub mod Tests
