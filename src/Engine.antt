-- ===== src/Engine.antt =====
-- simswarm/: the swarm engine that runs on the pod.
pub mod Types
pub mod Value
pub mod Number
pub mod Decimal
pub mod Social
pub mod Belief
pub mod Economic
pub mod Bridge
pub mod Loop
pub mod Market
pub mod Sweep
