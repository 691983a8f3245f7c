-- ===== src/Boot/Paths.antt =====
-- `MakeConsoleSockPath` of bootstrap/src/run.cpp.
use dts_framework.Common.{Option, none, some, ◌++◌, Text, codes, drop, split_at_last}

-- The name behind the last slash.
unfoldable pub base_name : Text → Option (Text × Text) → Text
base_name name none = name
base_name name (some (before, from_slash)) = drop 1 from_slash

-- The name before the last `.json`.
unfoldable pub stem : Text → Option (Text × Text) → Text
stem name none = name
stem name (some (before, from_dot)) = before

unfoldable pub make_console_sock_path : Text → Text
unfolding base_name stem split_at_last
make_console_sock_path cfg_path =
    let name = base_name cfg_path (split_at_last (codes "/") cfg_path) in
    codes "/tmp/dts-" ++ (stem name (split_at_last (codes ".json") name) ++ codes ".sock")
