-- ===== src/Resolution/Blocked.antt =====
-- What a batch of packages/core/src/resolution.ts leaves of the rows behind its scan.
use hyperfixation_core.Resolution.Batch.{Batch}
