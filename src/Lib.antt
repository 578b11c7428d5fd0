-- ===== src/Lib.antt =====
-- clusterset-server is an aggregated API server that lists and watches the managed clusters and
-- cluster sets that a user may get. Its core is a cache of who may get what, kept in step with the
-- RBAC objects of the cluster by a periodic run, and the watchers that are told of its changes.
--
-- Base: the tests, lists, maps, error results and texts that the parts share.
-- Platform: the interface of `sets.String` and `cache.Store`, which are libraries; the theorems hold
--   for every implementation of its laws.
-- Objects, Rbac: the API objects, with the fields that the code reads.
-- Rbac.Allow (pkg/cache/rbac/allow.go): which rules allow a request; Spec describes it.
-- Rbac.Locator (pkg/cache/rbac/subject_locator.go): the subjects that the bindings let do something.
-- Rbac.Reviewer (pkg/cache/rbac/reviewer.go): the review that is made of them. The split of subjects
--   into users and groups is a library function, a parameter with its documented behaviour.
-- Watcher (pkg/cache/watcher.go): the state of a watcher and `GroupMembershipChanged`. The channel
--   `cacheIncoming` is the list of what waits in it, at most 1000 events. Feed is the goroutine
--   `Watch` with the notifications and `Stop` that run beside it, as a step relation. A notification
--   that finds the channel full waits in `RemoveWatcher` for the lock that `notifyWatchers` holds
--   around it, so what stands behind that call is never reached, and no other notification follows.
-- AuthCache (pkg/cache/common.go): Records and Subjects are its stores, Review is `skipReview`,
--   `cacheReviewRecord` and `lastKnown`, Notify is the list of watchers, Request is `syncRequest`,
--   Sync is `synchronize` and what it calls, Names is `listNames`. Program is the same run taken access
--   by access: a tree of reads of the informers, lookups and writes of the stores, and notifications.
--   Alone compares the two; Rights says what a program may write and whom it may notify, and Restores
--   what its writes make up for before it notifies or ends.
-- ClusterCache (pkg/cache/managedcluster.go): what the cache asks to be reviewed and what it lists;
--   Access goes from the bindings to the list.
-- ClusterSetCache (pkg/cache/managedclusterset.go): the same for cluster sets, translated for itself;
--   Same compares the two files.
-- Scope (pkg/apis/helpers/scope.go): what the scopes of a token show. The parser of scopes is a
--   library, a parameter.
-- Registry (pkg/registry/managedcluster/storage.go, pkg/apis/helpers/matcher.go): the handlers of a
--   get, of a list and of a watch; Registry.ClusterSets (managedclusterset/storage.go) those of cluster sets.
-- Server (pkg/cmd/server.go): the two caches and the storage that `NewFilterServer` puts together, and
--   what happens to the caches while the server runs, as a step relation: a run of a cache that a
--   hook has started, a watch, the end of a watcher, and an event that a watcher takes. Each step
--   reads what the informers hold at that moment, which is arbitrary.
-- Server.Interleaved: a cache of the server access by access. The run, the handlers of watches and the
--   goroutines of watchers take turns in any order, the lock of the watchers is held from the start of
--   a notification to its end, and the informers may change between any two accesses. Laws and Keeps
--   are the rule for what all accesses keep, and Covers goes from the steps of Server to accesses.
-- Api (pkg/apis/cluster/register.go, v1/register.go, v1alpha1/register.go): the registration of the
--   types, over an interface of the scheme library; a panic of one of its methods is an error result.
-- Start (cmd/server/server.go, pkg/cmd/start.go, pkg/cmd/options/options.go): `main`, the flags and
--   `Run` as a chain of results, up to the exit of the process, if any: the stop channel that `main`
--   passes is never closed, and the api server need not return. What the libraries do with the
--   arguments, the options and the api server is an interface, without laws.
-- Tests: the theorems at concrete inputs, on a platform made of lists.
--
-- State is passed explicitly: an operation takes an `AuthCache` and ends in an `Outcome`, which is
-- `done` with a new state, or `stuck` where the code waits for ever for the lock of the watchers that
-- it holds. All loops are over lists, so no fuel is needed. What a run reads of its informers is the
-- record `Surroundings`: within a run of Sync it does not change, and each read of a program has its own.
-- The rules for what the steps of a run keep (Keeps, Runs) are used for consistency of the stores, for
-- what is covered by records and for freshness; Room counts what the steps send to the watchers, and
-- Server.Steps has the rule for what the steps of the server keep.
--
-- Not modelled: logging and metrics; the time between two runs of a cache; a review and a list are one
-- access each, although they read several objects; that a watcher whose goroutine returns is removed
-- from the cache at once; `ConvertToTable`, which hands its arguments on to a library; `Kind` and
-- `Resource`, which nothing calls; the build information, which no part of the program reads.
pub mod Base
pub mod Platform
pub mod AuthCache
pub mod ClusterCache
pub mod ClusterSetCache
pub mod Scope
pub mod Registry
pub mod Server
pub mod Api
pub mod Start
pub mod Rbac
pub mod Objects
pub mod Watcher
mod Tests
