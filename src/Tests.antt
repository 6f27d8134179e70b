-- ===== src/Tests.antt =====
-- Tests of the modelled code on concrete inputs, and an instance of each theorem.
mod TimerTests
mod LogTests
mod ListenerTests
mod IoTests
mod Formats
mod ConfigTests
mod DumpTests
mod SchedulerTests
mod MutexTests
mod FiberTests
