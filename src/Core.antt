-- ===== src/Core.antt =====
-- `app/core`: the vocabularies, the settings and the text of feeds, with the floats that they use.
pub mod Enums
pub mod Category
pub mod Floats
pub mod Config
pub mod Text
