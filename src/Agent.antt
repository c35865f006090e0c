-- ===== src/Agent.antt =====
-- runtime/cmd/agent/main.go: the agent beside a function, which proxies invocations to the runtime
-- and reports metrics.
mod Metrics
mod Window
mod Percentile
mod Proxy
mod Health
mod Tests
