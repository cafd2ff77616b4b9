-- ===== src/Collector/Data.antt =====
-- SwitchData, Store and NewStore of internal/collector/collector.go. A nil map that the code tells
-- from an empty one is an Option. The mutex is left out: each function here is what one locked
-- section does. The Store holds the states where the source holds pointers to them.
pub mod Laws
use arex.Prelude.{
  String, ◌+s◌, List, [], ◌∷◌, ◌++◌, Option, none, some, Result, ok, err, if◌then◌else◌,
}
use arex.Prelude.Assoc.{Map, lookup, insert, has}
use arex.GoTime.{Time, Duration}
use arex.Config.Types.{CollectSet, SwitchConfig, label}
use arex.Config.Modules.{effective_collect}
use arex.Eapi.Error.{Err}
use arex.Eapi.Stats.{Stats, zero_stats}
use arex.Collector.Commands.{CmdSpec, commands_for, command_names}
use arex.Collector.Repeat.{RepeatTracker, new_tracker}
use arex.Collector.Output.{Output, zero_output}

pub record SwitchData (F : Type 0) : Type 0 where
  pub label : String
  pub fabric : String
  pub last_success : Time
  pub scrape_err : Option Err
  pub last_attempt : Time
  pub command_errors : Option (Map Err)
  pub command_last_success : Map Time
  pub command_interval : Option (Map Duration)
  pub next_due : Map Time
  pub stats : Stats
  pub commands : List String
  pub specs : Option (List CmdSpec)
  pub tracker : RepeatTracker
  pub output : Output F

pub record Store (F : Type 0) : Type 0 where
  pub switches : Map (SwitchData F)
  pub order : List String

-- Reading a nil map, or ranging over a nil slice.
abbrev pub or_nil {ℓ} : {A : Type ℓ} → Option (List A) → List A
or_nil none = []
or_nil (some l) = l

unfoldable pub intervals_of : List CmdSpec → Map Duration → Map Duration
intervals_of [] m = m
intervals_of (c ∷ cs) m = intervals_of cs (insert c.name c.interval m)

module _ {F : Type 0} (z : F) where
  -- `z` is the zero of float64.
  unfoldable pub new_switch_data_from_specs : String → String → List CmdSpec → SwitchData F
  new_switch_data_from_specs label fabric specs = record {
    label = label;
    fabric = fabric;
    last_success = 0;
    scrape_err = none;
    last_attempt = 0;
    command_errors = none;
    command_last_success = [];
    command_interval = some (intervals_of specs []);
    next_due = [];
    stats = zero_stats;
    commands = command_names specs;
    specs = some specs;
    tracker = new_tracker;
    output = zero_output z;
  }

  -- The loop of NewStore, from the store built so far.
  unfoldable pub add_switches :
      Store F → List SwitchConfig → CollectSet → Duration → Result String (Store F)
  add_switches s [] defaults poll_interval = ok s
  add_switches s (sw ∷ rest) defaults poll_interval =
      let specs =
        commands_for (effective_collect sw defaults poll_interval) sw.interface_scope
          poll_interval in
      let added =
        add_switches
          (record {
            switches =
                insert (label sw) (new_switch_data_from_specs (label sw) sw.fabric specs)
                  s.switches;
            order = s.order ++ (label sw ∷ []);
          })
          rest defaults poll_interval in
      if has (label sw) s.switches
      then err ("config: duplicate switch label " +s label sw +s " — names must be unique")
      else added

  unfoldable pub new_store : List SwitchConfig → CollectSet → Duration → Result String (Store F)
  new_store = add_switches (record { switches = []; order = [] })

module _ {F : Type 0} where
  unfoldable pub get : Store F → String → Option (SwitchData F)
  get s label = lookup label s.switches

  -- `All`: a label of `order` that the map lacks would be a nil pointer; `none` stands for it.
  unfoldable pub get_each : Store F → List String → List (Option (SwitchData F))
  get_each s [] = []
  get_each s (label ∷ rest) = get s label ∷ get_each s rest
