-- ===== src/Ingest.antt =====
-- `app/services/ingest.py`: a fetched feed becomes article rows.
pub mod Urls
pub mod Entry
pub mod Persist
