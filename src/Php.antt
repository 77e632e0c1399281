-- ===== src/Php.antt =====
-- src/bindings/php/liblpm.c: the table of the PHP extension, as objects of two classes and as a
-- resource. A PHP string is what stands before its first NUL; the calls of the extension with other
-- types of arguments do not get this far.
pub mod Prefix
pub mod Table
pub mod Methods
pub mod Run
pub mod Script
pub mod Longest
