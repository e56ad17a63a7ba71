-- ===== src/Tests.antt =====
-- Runs of the model, and the theorems at concrete inputs.
mod StreamTests
mod StoreTests
mod Service
mod BandwidthTests
mod DriveTests
mod DbTests
mod OperationsTests
mod ServerTests
mod AuthTests
mod VaultTests
mod RoutesTests
mod RateLimitTests
mod MainTests
mod MigrationTests
