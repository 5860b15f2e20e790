-- ===== src/Upload.antt =====
-- The upload protocol of app/service.py, from creation to the seal.
pub mod Archive
pub mod Session
pub mod Finalize
pub mod Replay
pub mod Put
pub mod Spec
