-- ===== src/Runtime.antt =====
-- runtime/cmd/runtime/main.go: the queue of invocations between the gateway's requests and the
-- function's process, which polls for the next one and posts its response.
mod Types
mod Queue
mod Answers
mod Polling
mod Loop
mod Bootstrap
mod Served
mod Limit
mod Tests
