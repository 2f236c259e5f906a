-- ===== src/Lib.antt =====
-- The nelm-operator: a Kubernetes controller that keeps Nelm (Helm) releases as `Release` objects
-- describe them.
--
-- Parts. A `Release` names a chart, by an inline chart source or by a reference to a Flux object. One
-- call of `Reconcile` reads the Release, brings its chart source and HelmChart into being, reads the
-- release storage, fetches the chart's artifact, writes the values files, plans, and installs what the
-- plan found. A Release that is being deleted is uninstalled instead. Failures are counted in the
-- status, retried with a growing delay, and end in a rollback and the condition Stalled.
--
-- Files and the code that they are about:
--   Base            the library names, Go's `int64` arithmetic, `strings.Split` and `Join` with commas,
--                   string maps, errors with `%w`
--   Api             api/v1alpha1/release_types.go and const.go
--   Config          internal/config/config.go
--   Source          internal/source/builders_*.go, and of source.go the construction of a chart source
--   Options         the option structs that internal/controller/release_controller.go passes to Nelm
--   World           the code outside the repository, as parameters, and the actions over it
--   Values          internal/values/values.go
--   Artifact        internal/source/source.go: readiness, download, `ResolveChartRef`
--   Controller      internal/controller/release_controller.go, a child module for each group of its
--                   methods
--   Watches         internal/controller/release_indexer.go: the indexes, the digest of a revision, and the
--                   requests for a change; internal/controller/release_manager.go: the index of chart
--                   sources and the set-up of the controller; internal/predicates/source.go
--   Laws            invariants of actions, and what is assumed of the code outside
--   Startup         cmd/main.go: the flags, the configuration, the options and the course of `main`
--   Membership      names in lists
--   Registry        a shared chart source as a set of users, which the annotation represents
--   Order, Separation, Status, Phases, SharedSources, Retry, ForeignChange, Finalizers, ValuesFiles,
--   TempDirs, Access
--                   what the controller does
--   Examples        a small cluster with concrete functions, and the theorems at work on it
--
-- State. The methods of the reconciler share the `Release` that they point to. `World.State` carries
-- it beside a `World`, which only the parameters change, and the record of the calls that left the
-- process, the newest first (`World.Effect`). An action is a function on that state. A Go function
-- `resolveChartRef` is `resolve_chart_ref` here; the parts of a long function have names of their own,
-- and a comment says which lines they are. `check` is `if err != nil`, with the rest of the function.
--
-- Parameters. `World.Env` holds the Kubernetes client, `meta.SetStatusCondition`,
-- `retry.RetryOnConflict`, the readers of unstructured content, Nelm, the operating system, the HTTP
-- client, SHA-256 and the JSON encoders. Nothing is assumed of them but what a theorem names. Most name
-- `Laws.Services.IsLawful`: a set condition replaces the one of its type and leaves the others, and
-- `RetryOnConflict` runs its function again only after a conflict. The first is the contract of
-- apimachinery, the second that of client-go. The retries are a finite sequence of runs, of which
-- nothing else is assumed. Other contracts are records of their own. `Registry.Server.Server` is the contract of the API server for one object
-- that no other client writes: a call that succeeds has its effect, one that fails has none.
-- `Watches.Served` names what the API server admits and that setting an owner leaves an object's name,
-- `Watches.Wakes.ListsBy` what a listing by an index gives, and `Watches.Indexed.IsIndexing` that a
-- registered index is listed by.
--
-- Numbers. An `int`, an `int64` and a `time.Duration` are integers; the count of
-- failures and the retry delay, the places where the program can leave the range, keep their
-- wrap-around at 64 bits. Only the decimal digits of
-- a number run on fuel, one unit more than the number, which a division by ten at each step never uses
-- up.
--
-- Not modelled: the logging, the texts of events, contexts and their cancellation, the periodic stack
-- traces, the parsing of the flags, and the generated deep copies. The listing of Releases by an index
-- and the manager of controller-runtime are parameters, `Startup.Main.Program` and
-- `Watches.Setup.ControllerManager`. The transition time of a condition is left
-- out, since the program neither sets nor reads it. The calls of one Release are taken one after
-- another: controller-runtime never runs two of them at once.
pub mod Base
pub mod Api
pub mod Config
pub mod Source
pub mod Options
pub mod World
pub mod Values
pub mod Artifact
pub mod Controller
pub mod Laws
pub mod Membership
pub mod Retry
pub mod ForeignChange
pub mod Order
pub mod Status
pub mod Phases
pub mod SharedSources
pub mod Registry
pub mod Separation
pub mod Watches
pub mod Startup
pub mod TempDirs
pub mod Access
pub mod Finalizers
pub mod ValuesFiles
pub mod Examples
