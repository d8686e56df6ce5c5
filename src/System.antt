-- ===== src/System.antt =====
-- The program's own layer over the operating system: wrap_syscall.cc, read.cc, run.cc, fswatch.cc,
-- temp_file.h, application.cc and curses_client.cc. What the system answers to the calls of a run is given as the list of its answers.
pub mod Syscall
pub mod Pipes
pub mod Run
pub mod Watch
pub mod Modes
pub mod Screen
pub mod TempFile
