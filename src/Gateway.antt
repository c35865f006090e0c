-- ===== src/Gateway.antt =====
-- The gateway's path of an invocation: the queue in front of each function (gateway/queue) and the
-- router (gateway/router), and the internal routes for leases (gateway/entrypoints/leases.go).
mod Queue
mod Waiting
mod Manager
mod Router
mod Routes
mod Released
mod Tests
