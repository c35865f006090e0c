-- ===== src/Label.antt =====
-- The two functions `dnsLabel` of the repository: gateway/scheduler/k8s_backend.go and
-- mqsvc/config.go. A text is the list of its runes; an invalid byte is the rune U+FFFD, as Go's
-- `range` reads it. What is accepted is ASCII, so there its length in runes is that in bytes.
pub mod Chars
pub mod Gateway
pub mod Mq
mod Tests
