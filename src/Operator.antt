-- ===== src/Operator.antt =====
-- internal/operator/controller: the parts of the Kubernetes operator that decide without the cluster.
pub mod Dag
pub mod Merge
