-- ===== src/Topology/Eviction.antt =====
-- The eviction of src/topology.rs when a new guild meets a full cache.
