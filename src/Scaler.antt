-- ===== src/Scaler.antt =====
-- scalersvc/main.go: how many replicas a function should have, and what the scaler asks for.
mod Types
mod Policy
mod Bounds
mod Metrics
mod Tests
