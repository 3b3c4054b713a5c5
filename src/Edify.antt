-- ===== src/Edify.antt =====
-- edify: the language of the updater scripts.
pub mod Strings
pub mod Expr
pub mod Arguments
pub mod Functions
pub mod Safety
pub mod Table
pub mod Laws
mod Tests
