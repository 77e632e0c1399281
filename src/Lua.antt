-- ===== src/Lua.antt =====
-- src/bindings/lua/src/liblpm_utils.c: reading addresses and prefixes that are written as text. The
-- pointers that the functions get are not NULL; a failure, -1, is none.
pub mod Text
pub mod Ipv4
pub mod Ipv6
pub mod Print
pub mod Network
pub mod Cidr
pub mod Rounds
pub mod Accepted
