-- ===== src/SimpleManager/WithHopper.antt =====
-- The program with the monitor of exec_monitor/cpu_hopper.cc: `start` of the manager on a new object.
use aser.Benchmark.{Benchmark}
use aser.ExecMonitor.{ExecMonitor, ExecEvent, Virtual, running, initialize, run_thread}
use aser.ExecMonitor
use aser.Hopper.Affinity.{Affinity}
use aser.Os
use aser.Manager
use aser.SimpleManager.{SimpleManager}
