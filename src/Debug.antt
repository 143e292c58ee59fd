-- ===== src/Debug.antt =====
-- wtmi/debug.c: the debug command line. What it echoes to the terminal is left out.
pub mod Args
pub mod Number
pub mod Editor
pub mod Keys
pub mod Bounds
pub mod History
pub mod Adding
pub mod Process
pub mod Text
pub mod Erase
mod Tests
