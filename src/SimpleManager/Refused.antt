-- ===== src/SimpleManager/Refused.antt =====
-- The program with the monitor of exec_monitor/cpu_hopper.cc on too few CPUs.
use aser.Benchmark.{Benchmark}
use aser.ExecMonitor.{ExecMonitor}
use aser.ExecMonitor
use aser.Manager
use aser.SimpleManager.{SimpleManager}
