-- ===== src/Ml.antt =====
-- quickapi/ml: the guard that scores a request and decides what to do with it. Numbers are floats,
-- taken as any type with the operations that the code uses.
pub mod Floats
pub mod Signals
pub mod Intent
pub mod Shapes
pub mod Profile
pub mod Tokens
pub mod Finders
pub mod Sources
pub mod Score
pub mod Dedupe
pub mod Guard
pub mod Report
pub mod Risk
pub mod Engine
pub mod Verdicts
pub mod Synaptic
