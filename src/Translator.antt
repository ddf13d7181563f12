-- ===== src/Translator.antt =====
-- services/translator: the automatic translation of the fields of a model.
pub mod Content
pub mod Field
pub mod Split
pub mod Dicts
pub mod Update
pub mod Marks
mod Tests
