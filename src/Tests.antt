-- ===== src/Tests.antt =====
-- Runs of the modelled code at concrete inputs, and the theorems at inputs that meet their
-- hypotheses.
mod Budget
mod Shared
mod Engine
mod Storage
mod Jobs
mod QubitUsage
mod EventLog
mod Auth
mod Shor
mod ProviderMetrics
mod ControlProfiles
mod RequestSize
mod RateLimit
mod Providers
mod RunQueue
mod Multicall
mod WorkerService
