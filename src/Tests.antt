-- ===== src/Tests.antt =====
-- Runs of the definitions on small inputs, and the theorems at concrete inputs.
mod Toy
mod HmacRuns
mod SignRuns
mod OpenvpnRuns
mod WireRuns
mod QueueRuns
mod PoolRuns
mod HashRuns
mod ControlRuns
mod LabsRuns
