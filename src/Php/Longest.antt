-- ===== src/Php/Longest.antt =====
-- The table of class LpmTableIPv6 with its default algorithm, against the specification of Rib.
use liblpm.Trie.{Trie}
use liblpm.Lua.Text.{Text}
