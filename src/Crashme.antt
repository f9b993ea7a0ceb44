-- ===== src/Crashme.antt =====
-- cmd/crashme/main.go: the service that runs a task's program on what a connection sends, and gives a
-- flag for a crash.
pub mod Line
pub mod Flag
pub mod Connection
pub mod Accept
pub mod Permits
pub mod Proxy
