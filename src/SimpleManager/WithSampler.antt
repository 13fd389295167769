-- ===== src/SimpleManager/WithSampler.antt =====
-- The program with the monitor of exec_monitor/impl/pmc_sampler.h, with the dummy implementation:
-- `start` of the manager on a new object.
use aser.Benchmark.{Benchmark}
use aser.ExecMonitor.{ExecMonitor}
use aser.Manager
use aser.SimpleManager.{SimpleManager}
