-- ===== src/Backend.antt =====
-- gateway/scheduler/k8s_backend.go: the backend that runs instances as pods of a cluster.
mod Pod
mod Kubernetes
mod Outcome
mod Started
mod Tests
