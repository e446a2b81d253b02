-- ===== src/Storage.antt =====
-- Where validated records are kept (src/storage).
pub mod Local
pub mod Objects
