-- ===== src/Pkg.antt =====
-- The packages of pkg that stand for themselves: pkg/targz, pkg/conf and pkg/log.
pub mod Targz
pub mod Conf
pub mod Log
