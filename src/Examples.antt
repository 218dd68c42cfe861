-- ===== src/Examples.antt =====
-- Runs of the modelled code at concrete inputs.
mod FramingRuns
mod SessionRuns
mod PoolRuns
mod ManagerRuns
mod RouterRuns
mod ClientRuns
mod ZoneRuns
mod LimiterRuns
mod TextCodec
mod ServerRuns
