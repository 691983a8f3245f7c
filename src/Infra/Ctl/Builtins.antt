-- ===== src/Infra/Ctl/Builtins.antt =====
-- The commands of infrastructure/src/ctl.cpp itself; what the scheduler's `QueryThreads` returns is an
-- argument. The registry holds function pointers.
use dts_framework.Common.{
  take, ℕ, Bool, true, false, Option, none, some, List, [], ◌∷◌, ◌++◌, if◌then◌else◌, Text, codes,
  text_eq,
}
use dts_framework.Infra.Ctl.{Command, Registry, register_command, for_each}

pub data Level : Type 0 where
  trace debug info warn error critical : Level

abbrev help_line : {F : Type 0} → Command F → Text
help_line c = elim c.name [
  | none ↦ codes "  " ++ (c.usage ++ 10 ∷ [])
  | some name ↦ name ++ (codes "  " ++ (c.usage ++ 10 ∷ []))
]

unfoldable pub cmd_help : {F : Type 0} → Registry F → Text → ℕ × Text
cmd_help r out = (0, out ++ for_each help_line r)

-- A thread as the scheduler reports it, its numbers as `std::to_string` prints them.
pub record ThreadInfo : Type 0 where
  pub name : Text
  pub seg_index : Text
  pub prio : Text
  pub sched_policy : Text
  pub cpu_affinity : Text
  pub tid : Text

abbrev thread_line : ThreadInfo → Text
thread_line t =
    t.name
    ++ (codes "  seg="
        ++ (t.seg_index
            ++ (codes " prio="
                ++ (t.prio
                    ++ (codes " policy="
                        ++ (t.sched_policy
                            ++ (codes " cpu="
                                ++ (t.cpu_affinity ++ (codes " tid=" ++ (t.tid ++ 10 ∷ []))))))))))

unfoldable pub thread_lines : List ThreadInfo → Text → Text
thread_lines [] out = out
thread_lines (t ∷ ts) out = thread_lines ts (out ++ thread_line t)

-- `QueryThreads` fills at most 64 entries.
unfoldable pub cmd_get_threads : List ThreadInfo → Text → ℕ × Text
unfolding thread_lines
cmd_get_threads threads out = (0, thread_lines (take 64 threads) out)

unfoldable pub level_of : Text → Option Level
level_of lvl =
    if text_eq lvl (codes "trace")
    then some trace
    else if text_eq lvl (codes "debug")
    then some debug
    else if text_eq lvl (codes "info")
    then some info
    else if text_eq lvl (codes "warn")
    then some warn
    else if text_eq lvl (codes "error")
    then some error
    else none

-- The level that is set, if any, is part of the result.
unfoldable pub set_level_to : Text → Option Level → (ℕ × Text) × Option Level
set_level_to lvl none =
    ((1, codes "invalid level: " ++ (lvl ++ codes " (trace|debug|info|warn|error)")), none)
set_level_to lvl (some level) = ((0, codes "log level -> " ++ lvl), some level)

unfoldable pub cmd_set_log_level : List Text → Text → (ℕ × Text) × Option Level
cmd_set_log_level [] out = ((1, codes "usage: set_log_level <trace|debug|info|warn|error>"), none)
cmd_set_log_level (lvl ∷ args) out = set_level_to lvl (level_of lvl)

-- `RegisterBuiltins`: the flag `registered`, and the registry.
unfoldable pub register_builtins : {F : Type 0} → F → F → F → Bool → Registry F → Bool × Registry F
register_builtins help get_threads set_log_level true r = (true, r)
register_builtins help get_threads set_log_level false r =
    let one =
      register_command r
        (record { name = some (codes "help"); usage = codes "列全部命令"; fn = some help }) in
    let two = register_command one.1 (record {
      name = some (codes "get_threads");
      usage = codes "全进程线程注册表";
      fn = some get_threads;
    }) in
    let three = register_command two.1 (record {
      name = some (codes "set_log_level");
      usage = codes "set_log_level <trace|debug|info|warn|error>";
      fn = some set_log_level;
    }) in
    (true, three.1)
