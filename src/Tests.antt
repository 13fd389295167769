-- ===== src/Tests.antt =====
-- A concrete machine, and the theorems at concrete inputs.
mod Machine
mod Logging
mod TwoBenchmarks
mod StartTests
mod EndTests
mod HopperTests
mod QueueTests
mod PerfTests
mod ProcessTests
mod MonitorTests
mod ExecTests
mod UtilTests
mod SamplerTests
mod SimpleManagerTests
mod MacTests
