-- ===== src/Go.antt =====
-- The functions of Go's standard library that the program calls on keys: `strings` and `path`.
pub mod Base64
pub mod Strings
pub mod Errors
pub mod Strconv
pub mod Hex
pub mod FilePath
