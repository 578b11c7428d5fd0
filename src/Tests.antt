-- ===== src/Tests.antt =====
-- The theorems at concrete inputs, and runs of the model.
mod Lists
mod Cluster
mod Cache
mod Reviews
mod Access
mod Clusters
mod Scopes
mod Watchers
mod Servers
mod Interleaved
mod Serial
mod Told
mod Steady
mod Sets
mod Starts
mod Overflow
mod Schemes
