-- ===== src/Minzip.antt =====
-- minzip: the archives that hold packages.
pub mod Archive
pub mod DirUtil
pub mod Hash
pub mod Zip
