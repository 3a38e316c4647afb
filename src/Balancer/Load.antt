-- ===== src/Balancer/Load.antt =====
-- The arithmetic of mds/MDBalancer.cc on `double`: what the code does with loads.
use mds.Prelude.{Bool}

pub record Load (T : Type 0) : Type 0 where
  pub zero : T
  pub plus : T → T → T
  pub minus : T → T → T
  pub times : T → T → T
  pub lt : T → T → Bool
  pub le : T → T → Bool
