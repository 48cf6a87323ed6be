-- ===== src/Router.antt =====
-- router.go: the default routing engine, a trie of path segments whose links are matched by text or
-- by a regular expression. `Segment` turns a segment into an expression, `Trie` has the nodes and
-- the insertion of a route, `Find` the search; the other children are proofs.
pub mod Segment
pub mod Trie
pub mod Find
pub mod Groups
pub mod PathValues
pub mod Lookup
pub mod Literal
pub mod Table
pub mod Listed
pub mod Allowed
pub mod Methods
pub mod Sound
pub mod Complete
pub mod Reached
pub mod BadMethod
pub mod WellFormed
pub mod Caching
pub mod Insertion
pub mod Extended
pub mod Others
pub mod Lasting
pub mod Panics
pub mod Shortcut
