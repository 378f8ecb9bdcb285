-- ===== src/Graph.antt =====
-- backend/internal/graph: resolving a parsed directory into one connected model.
pub mod Ids
pub mod Registry
pub mod Orient
pub mod Resolve
pub mod Edges
pub mod Sources
pub mod Domains
pub mod Drift
pub mod Build
