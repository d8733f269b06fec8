-- ===== src/Cache.antt =====
-- go/connection.go: `ValidationResult`, `cacheEntry`, `LRUCache` and its methods, for any type of
-- keys that can be compared. A `*list.Element` is an identity: the map of the source leads from
-- keys to identities, and the list holds each element with its identity, front to back.
-- Each method runs under the mutex, so it is one step; `time.Now()` is an argument.
pub mod Elements
pub mod Lru
pub mod Spec
pub mod Index
pub mod Linked
pub mod Refinement
pub mod Writes
pub mod History
