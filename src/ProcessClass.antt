-- ===== src/ProcessClass.antt =====
-- What the managers use of their class of processes, which owns its object; `W` is the system.
pub mod Contract
pub mod Watching
use aser.Prelude.{ℤ, String, List}
use aser.Outcome.{Result}

pub record ProcessClass (P W : Type 0) : Type 0 where
  pub make : List String → W → Result P × W
  pub prepare : P → W → Result (Unit {0}) × P × W
  pub start : P → W → Result (Unit {0}) × P × W
  pub wait : P → W → Result (Unit {0}) × P × W
  pub kill_process : P → W → Result (Unit {0}) × P × W
  pub pid : P → Result ℤ
  pub termination_status : P → Result ℤ
  pub destroy : P → W → Result (Unit {0}) × W
