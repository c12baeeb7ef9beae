-- ===== src/Intrinsics.antt =====
-- src/mintrinsics: the native procedures on lists and strings, and the program's arguments.
pub mod Lists
pub mod Strings
pub mod Sound
pub mod Concat
pub mod Slices
