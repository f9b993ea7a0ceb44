-- ===== src/Web.antt =====
-- internal/web: the handlers of the service.
pub mod Numbers
pub mod Attempt
pub mod Wiring
pub mod Api
pub mod Session
pub mod Signup
pub mod Oauth
pub mod Flags
pub mod Pages
pub mod Telegram
pub mod Routes
pub mod Run
