-- ===== src/Service.antt =====
-- mqsvc/main.go and mqsvc/config.go: the triggers that mqsvc has consumers for.
mod Triggers
mod Config
mod Reconcile
mod Wanted
mod Starting
mod Consumers
mod Listed
mod Merging
mod Tests
