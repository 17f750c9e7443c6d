-- ===== src/Parse.antt =====
-- src/platform/parse: how an uploaded file becomes rows of cells.
pub mod Tabular
