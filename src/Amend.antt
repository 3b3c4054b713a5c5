-- ===== src/Amend.antt =====
-- amend: the older language of update scripts, its symbol table, its commands and their execution.
pub mod Symtab
pub mod Commands
pub mod Execute
mod Tests
