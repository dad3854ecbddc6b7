-- ===== src/Cmd.antt =====
-- cmd: the commands that wire the parts of the program together.
pub mod OutputManager
pub mod AlertRules
pub mod Tailers
pub mod Pipeline
pub mod Writers
