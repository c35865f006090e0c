-- ===== src/Logs.antt =====
-- logdaemon: the recent lines of each function, what a client reads of them, the proxy that asks the
-- collectors of a cluster, and a collector.
mod Ring
mod Recent
mod Proxy
mod Fetched
mod Stream
mod Collector
mod Tests
