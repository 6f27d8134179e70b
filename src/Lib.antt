-- ===== src/Lib.antt =====
-- This library is about fxk, a C++ server framework: timers, a logger, configuration variables,
-- a scheduler of fibers, and an epoll manager that wakes them.
--
-- How the parts interact. `IOManager` (iomanager.cpp) is a `Scheduler` (scheduler.cpp) and a
-- `TimerManager` (timer.cpp): it keeps for every file descriptor whom to wake for which event, and
-- hands the tasks to the scheduler that registered them. The scheduler's threads take tasks from
-- one queue and switch to their fibers (fiber.cpp). Loggers (log.cpp) are reached by name and write
-- events through appenders in the form of a pattern. Configuration variables (config/config.cpp)
-- are reached by name too, are written and read as YAML texts, and tell their listeners of changes;
-- the listener of `LogIniter` (log.cpp) brings the loggers in line with the configuration.
--
-- Which file models which part:
--   Base: shared names; `Result` is a call that may assert, throw, or be undefined in C++.
--   Timer: timer.cpp and timer.h. A timer is its address in a store; the set of timers is a list in
--     the comparator's order. Timer/Order, TimerSet, Cancel and Reset have the theorems.
--   Log/Level, Pattern, Format, Appender, Logger: log.cpp: LogLevel, LogFormatter::init and format,
--     the appenders, Logger::log and LoggerManager. What is written goes to a sink of console and
--     files. Their child modules have the theorems.
--   Log/Listener: log.cpp: LogDefine and the listener of LogIniter, on a heap of loggers. Building and
--     Configuring are about new definitions, Changes and Muting about changed and gone ones.
--   Log/Define: log.cpp: LexicalCast of LogDefine. Reading is about one definition, Whole about the
--     set of them. Log/Dump: toYamlString of appenders, loggers and the manager; Reread and Whole
--     are about reading that text as a configuration.
--   IoManager: iomanager.cpp and iomanager.h: addEvent, delEvent, cancelEvent, cancelAll, and what
--     idle does with the events of epoll_wait. IoManager/Events has the flags as they stand in
--     words of 32 bits, IoManager/Contexts the FdContext. IoManager/Invariant says what a
--     consistent manager is; Adding, Removing, Both, CancelAll and Waking are about one operation
--     each, Reachable about sequences of them behind the constructor, Stale about events that are
--     not registered, Timeout about the time that idle
--     waits, and Idle about a turn of its loop and tickle.
--   Config/Variable, Cast, Registry: config/config.cpp: ConfigVar, LexicalCast for containers, and
--     Config::Lookup. Cast/Unordered and Reordered have the hash containers, whose order of iteration
--     is an argument; abstractly they are lists of entries up to their order.
--   Scheduler: scheduler.h and scheduler.cpp: schedule, and one turn of the loop in run; Queue,
--     Counting and Turn are about these. Scheduler/Serving has the whole loop, and what fibers are
--     assumed to do where it is to end; Settling, Draining, Turns and Termination are about that.
--     Lifecycle has the constructor, the destructor and stop, and Restart is about stop and start;
--     Switching has switchTo and SchedulerSwitcher.
--   Fiber: fiber.h and fiber.cpp: fibers in a store, the process's counters and the thread-locals.
--     Fiber/State has Fiber::State, Entry the functions that a fiber begins with, Lives and Reachable
--     which fibers there are.
--   Mutex: mutex.h. Mutex/Locks has the locks, Guard the guards, Threads interleaved threads with a
--     guard each; Refinement, Exclusion and Progress have the theorems.
--   Thread: thread.h and thread.cpp. Creating and Handshake are about the constructor beside the new
--     thread's run, Releasing about join and the destructor.
--   Tests: runs on concrete inputs, and an instance of each theorem.
--
-- Numbers are unbounded where the code only compares or prints them; times of timers, the counters
-- of events and of threads, and the ids of listeners wrap at 2 ^ 64 as in the code, and the flags
-- of events have 32 bits. All functions are structural; only the decimal digits of a number run on
-- fuel, the number and one, which no number has more digits than, and the loop in Scheduler::run, on
-- as many turns as there are tasks queued and still to come, and two.
--
-- Parameters stand for what is not in the repository: the kernel's epoll (a record with one law: a
-- call that succeeds sets the flags of its descriptor and of no other), the YAML library, the C
-- library's strftime, which files open and can be written, the numbers of the log levels (two headers
-- give different ones), the pthread calls, getcontext and swapcontext, and what a
-- fiber does between two switches. The insertion of a timer that timer.h declares and Fiber::swapOut
-- that fiber.h declares, which no file defines, are parameters too.
--
-- Not modelled: log messages of the framework's own, the contexts and stacks of fibers, hooks, and
-- the older logger log/log.cpp. Outside Mutex an operation under a lock is one step.
pub mod Base
pub mod Fiber
pub mod Timer
pub mod Log
pub mod IoManager
pub mod Config
pub mod Mutex
pub mod Thread
pub mod Scheduler
pub mod Tests
