-- ===== src/Go.antt =====
-- What the program uses of Go's standard library: strings, maps with string keys, errors and regexp.
pub mod Text
pub mod Map
pub mod Mux
pub mod Errors
pub mod Regexp
pub mod Integer
