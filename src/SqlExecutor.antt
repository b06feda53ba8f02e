-- ===== src/SqlExecutor.antt =====
-- include/pageforge/sql_executor.hpp and src/sql_executor.cpp: a SELECT plan bound to the catalog's tables, with
-- the access path that its predicates allow.
pub mod Binding
pub mod Access
pub mod Interface
pub mod Select
