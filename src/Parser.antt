-- ===== src/Parser.antt =====
-- macros/src/parser: the table language of the `sml!` macro.
pub mod Stream
pub mod Guard
pub mod HashMap
pub mod Table
pub mod Lifetimes
pub mod Names
pub mod Cpp
pub mod Build
pub mod Generics
