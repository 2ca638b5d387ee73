-- ===== src/Graph.antt =====
-- graph: the labels of the graph, the merge of nodes and the values of properties.
pub mod Labels
pub mod Values
pub mod Canonical
pub mod Merge
