-- ===== src/Lua/Rounds.antt =====
-- The loop of `lpm_lua_parse_ipv6` ends by its own tests.
use liblpm.Base.{ℕ, ◌+◌, ◌-◌, if◌then◌else◌}
use liblpm.Lua.Text.{Text}
use liblpm.Lua.Ipv6.{Groups, is_some}

-- The rounds that may follow: one for each group that there is room for, and one for `::`.
abbrev rounds_left : Groups → ℕ
rounds_left g = 8 - g.num_groups + (if is_some g.double_colon_pos then 0 else 1)
