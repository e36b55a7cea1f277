-- ===== src/Tests.antt =====
-- Concrete runs of the model: each theorem with hypotheses at an input that meets them.
mod RbacTests
mod RequestTests
mod TaskTests
mod AccountTests
mod QueueTests
mod RecoveryTests
mod BackupTests
mod ConfigTests
mod DepsTests
mod HealthTests
mod ToggleTests
