-- ===== src/Lib.antt =====
-- ASER runs a set of benchmarks at once, watches them while they run, and stops them all when the
-- first one ends. This library models the parts that do that and proves what makes them correct.
--
-- The parts, and where they are:
--   Libc, Os        src/util/libc_wrapper.{h,cc}, src/util/detail/linux/os.cc: errors of the system
--                   become exceptions; the calls themselves are the record Posix, a parameter.
--   MacOs           src/util/detail/mac/os.cc, over the record Fcntl for the call fcntl.
--   Process         src/util/process.h, src/util/impl/process.h: fork, exec, wait, kill, destruction.
--   Process/Pipe    the class pipe; Process/Config: the class process_config; Process/Kill:
--                   src/util/kill.cc; Process/Sync: the class sync_process of src/util/process.cc, and
--                   Process/Sync/Object: the class as a manager uses it.
--   Queue           src/util/concurrent_queue.h, with the threads at one queue in Queue/Waiting.
--   Condition       src/util/thread.h: the class condition, with the threads that use it, and is_ready.
--   Timer           src/util/timer.{h,cc}.
--   Factory         src/util/factory.h, and in Factory/Registrars the registrars of the program, which
--                   stand in src/exec_monitor/*.cc and src/exec_manager/simple.cc.
--   ProcessMonitor  src/core/process_monitor.h and src/core/impl/process_monitor.h; the owner and the
--                   waiting threads are steps, in ProcessMonitor/Threads.
--   ExecMonitor     src/core/exec_event.h, src/core/exec_monitor.{h,cc}: the base class of monitors,
--                   its event queue and its thread.
--   Manager         src/core/exec_manager.{h,cc}.
--   SimpleManager   src/exec_manager/simple.{h,cc}: the slots and their preparation, the loops over them
--                   in SimpleManager/Slots, and start_impl in SimpleManager/Execution. It is written
--                   over the record ProcessClass; ProcessClass/Contract says what it relies on, and
--                   Process/Sync/Keeping fills that for sync_process. ProcessClass/Watching is about what
--                   start, wait and kill do to the system, and Process/Sync/Recording says it of
--                   sync_process: the record Recorded is what a system remembers of the bytes written
--                   to a pipe and of SIGKILL, and SimpleManager/Telling what the manager has asked of it
--                   for its processes. The whole `start` of a manager is
--                   in SimpleManager/Starting. SimpleManager/WithSimple, SimpleManager/WithHopper and
--                   SimpleManager/WithSampler follow it from the constructors to the destructor, each
--                   with a monitor, and SimpleManager/Refused follows it on too few CPUs; the threads of
--                   those monitors are in SimpleManager/HopperRuns and SimpleManager/SamplerRuns.
--                   SimpleManager/Succeeding is about the preparation, SimpleManager/Killing about the
--                   last loop of start_impl, and SimpleManager/Destroying about the destructor.
--   Benchmark       src/core/benchmark.{h,cc} and src/util/parse.h; Main: src/main.cc.
--   Hopper          src/exec_monitor/cpu_hopper.{h,cc}, and ExecMonitor/Hopping for its thread;
--                   Hopper/Affinity compares its tables with the CPUs that the system was asked for.
--   Sampler         src/exec_monitor/pmc_sampler.h and src/exec_monitor/impl/pmc_sampler.h, and
--                   ExecMonitor/Sampling for its thread.
--   SimpleMonitor   src/exec_monitor/simple.{h,cc}.
--   Perf            src/perf/event.h, src/perf/impl/event.h, src/perf/event.cc and
--                   src/perf/detail/linux/event.cc; Perf/Manager: src/perf/event_manager.h and its
--                   impl; Perf/Dummy: src/perf/event_dummy.h; Perf/Linux: src/perf/event_linux.h and
--                   its impl, over the record PerfKernel for the interface of the kernel.
--
-- A call is a function from the state to a result and the state after it (Outcome): it returns, throws,
-- fails an assertion, ends the process, or has its image replaced by exec. What was written before an
-- exception stays written. Assertions are on. A method of the source has the name of the method; its
-- object is a record with the fields of the class, without their final underscore. std::map is an
-- association list in the order of its keys (Prelude). Identifiers of processes, descriptors and the
-- results of system calls are integers; CPU numbers, counters and times are naturals, and the counters
-- wrap at 64 bits.
--
-- Loops run over the list that they iterate. process_events takes fuel, one more than the events that
-- are in the queue, and run_thread takes one more than the events of any one round. The rounds
-- of run_thread are the lists of events that arrive in each run of the loop; that is_execution_over
-- turns true is the end of that list. The steps of threads are those that hold the lock, so the lock is
-- not part of a state; spurious wake-ups and timeouts are steps of the queue. A future is modelled by
-- how far the function that fills it has come.
--
-- An execution of the simple manager runs next to a thread for each process and the thread of the
-- monitor. The record Schedule says which waits end before wait_for_any returns, before the processes are
-- killed, and before the process monitor is destroyed; a thread that ends runs whole at its place. That
-- a wait ends is an assumption on the schedule (Complete) and on waitpid (Willing); it is not proved
-- from the write to the go pipe or from the signal, of which the theorems say that they were made. The
-- thread of the monitor runs whole between the end of wait_for_any and the join. start_impl is `none` if it
-- would wait forever, and also if the monitor uses up the fuel of the schedule.
--
-- Variables that the source leaves uninitialised are arguments (garbage, status). double is the
-- parameter Double: its numbers, the conversion and the division. The property trees, the split of a text,
-- the command line and the JSON reader of boost are parameters too. Sleeping and logging have no effect on
-- the state. Not modelled: src/util/log.h, macros for the log of boost, and the unit tests.
mod Prelude
pub mod Outcome
pub mod Libc
pub mod Os
pub mod MacOs
pub mod Hopper
pub mod Queue
pub mod Perf
pub mod Process
pub mod ProcessMonitor
pub mod ExecMonitor
pub mod Manager
pub mod SimpleMonitor
pub mod Benchmark
pub mod ProcessClass
pub mod SimpleManager
pub mod Sampler
pub mod Timer
pub mod Factory
pub mod Main
pub mod Condition
mod Tests
