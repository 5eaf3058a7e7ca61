-- ===== src/Units.antt =====
-- The units of an analysed program: basic blocks, functions and the module that owns them
-- (ReWizardLib/source/Analysis/Units and include/ReWizard/Analysis/Units).
pub mod BasicBlock
pub mod Function
pub mod Module
