-- ===== src/Symbols.antt =====
-- The symbols of a module: the table of imports, exports and relocations that a binary declares
-- (Table), the pass that fills it (Imports), and the user's annotations (Annotations).
pub mod Table
pub mod Lookups
pub mod Imports
pub mod Annotations
