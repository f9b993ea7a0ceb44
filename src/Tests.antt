-- ===== src/Tests.antt =====
-- Tests, and each theorem with hypotheses at a concrete input where they hold.
mod Samples
mod Best
mod Scores
mod Deadlines
mod Database
mod Gitlab
mod Projects
mod Web
mod Board
mod Pages
mod Crashme
mod Telegram
mod Client
mod Proxy
mod Fuzzing
mod Routes
mod Pkg
mod Earns
mod Policies
mod Logins
mod Dates
