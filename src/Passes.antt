-- ===== src/Passes.antt =====
-- The analysis passes (ReWizardLib/source/Analysis/Passes).
pub mod Manager
pub mod Interval
pub mod Domain
pub mod Opaque
pub mod Hybrid
pub mod Rebuilder
pub mod DataFlow
pub mod Registry
