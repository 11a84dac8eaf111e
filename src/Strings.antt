-- ===== src/Strings.antt =====
-- strings/string_utils.cpp: the byte-level helpers, a module for each group.
pub mod Numbers
pub mod Split
pub mod Runs
pub mod Spaces
pub mod Escape
pub mod FileNames
pub mod Query
pub mod Cookies
mod Tests
pub mod Utf8
pub mod Replace
pub mod Domains
