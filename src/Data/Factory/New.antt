-- ===== src/Data/Factory/New.antt =====
-- The environment and the constructor of contexts/data/domain/src/data_factory_v2.cpp; a variable of
-- the environment that is not set is `none`.
use dts_framework.Common.{
  c_str, ℕ, ◌<◌, ◌≤◌, ◌≡◌, false, Option, none, some, [], Text, codes, text_eq, if◌then◌else◌, refl,
  arith,
}
use dts_framework.Boot.Commands.{strtoull}
use dts_framework.Data.Aggregator.{new_aggregator}
use dts_framework.Data.Mem.{new_manager}
use dts_framework.Data.Factory.{
  Bypass, bypass_full, bypass_recv, bypass_process, DataFactory, World, set_budget,
}

-- `GetBypass`
unfoldable pub get_bypass : Option Text → Bypass
unfolding text_eq
get_bypass none = bypass_full
get_bypass (some e) =
    if text_eq e (codes "recv")
    then bypass_recv
    else if text_eq e (codes "process")
    then bypass_process
    else bypass_full

abbrev pub frame_budget_warn_us : ℕ
frame_budget_warn_us = 3000

abbrev pub frame_budget_alarm_us : ℕ
frame_budget_alarm_us = 5000

unfoldable pub budget_or : ℕ → Option Text → ℕ
unfolding strtoull
budget_or default none = default
budget_or default (some v) = strtoull v

-- `DataFactory::DataFactory`, with the initial values of the members and of the counters of the file.
unfoldable pub new_factory : Option Text → Option Text → DataFactory
unfolding budget_or
new_factory warn alarm = record {
  tick = 0;
  current_task = 0;
  seq = 0;
  proc_count = 0;
  sink = false;
  agg = new_aggregator;
  stats = record {
    frames = 0;
    frame_max_us = 0;
    frame_budget_warn = 0;
    frame_budget_alarm = 0;
    drop_pool_full = 0;
    drop_slice_over_cap = 0;
    key_fail = 0;
    ticks = 0;
  };
  budget_warn_us = budget_or frame_budget_warn_us warn;
  budget_alarm_us = budget_or frame_budget_alarm_us alarm;
  for_each_total = 0;
  flush_total = 0;
  skip_sink = 0;
  skip_task = 0;
}

-- The singletons before the first call: the factory, the manager and the table.
abbrev pub new_world : Option Text → Option Text → World
new_world warn alarm = record { factory = new_factory warn alarm; mem = new_manager; table = [] }

-- The budgets are in order, as `SetBudget` wants them.
abbrev pub IsBudget : DataFactory → Type 0
IsBudget f = (0 < f.budget_warn_us) × (f.budget_warn_us ≤ f.budget_alarm_us)

set_budget-IsBudget :
    (f : DataFactory) (warn alarm : ℕ) → IsBudget f → IsBudget (set_budget f warn alarm).1
unfolding set_budget
set_budget-IsBudget f warn alarm v = ground arith

-- The constructor takes what the environment says: a budget of 0 is kept.
unchecked_budget : (new_factory (some (codes "0")) none).budget_warn_us ≡ 0
unfolding new_factory c_str
unchecked_budget = refl
