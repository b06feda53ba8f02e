-- ===== src/Tests.antt =====
-- Runs on concrete inputs, and the theorems applied to them.
mod Tuples
mod Sql
mod Pages
mod Pool
mod Index
mod Queries
mod Store
mod Executor
mod Definitions
mod Catalogued
mod Files
mod Lookups
mod Stored
