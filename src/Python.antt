-- ===== src/Python.antt =====
-- What the source uses of Python's standard library: `struct`, `zlib.crc32`, `bisect`, open files.
pub mod Struct
pub mod Zlib
pub mod Bisect
pub mod File
pub mod Dict
pub mod Text
pub mod Number
