-- ===== src/Eapi/Types/Environment.antt =====
-- What EOS answers to the show commands for temperature, power and cooling (internal/eapi/types.go): each struct's fields,
-- with float64 as the type F, and its zero value.
use arex.Prelude.{Bool, false, String, [], List}
use arex.Prelude.Int.{ℤ}
use arex.Prelude.Assoc.{Map}

pub record TempSensor (F : Type 0) : Type 0 where
  pub name : String
  pub description : String
  pub hw_status : String
  pub current_temperature : F
  pub max_temperature : F
  pub overheat_threshold : F
  pub critical_threshold : F
  pub in_alert_state : Bool
  pub alert_count : ℤ
  pub position : String

pub record PsuTempSlot (F : Type 0) : Type 0 where
  pub rel_pos : String
  pub temp_sensors : List (TempSensor F)

pub record ShowEnvironmentTemp (F : Type 0) : Type 0 where
  pub system_status : String
  pub shutdown_on_overheat : Bool
  pub temp_sensors : List (TempSensor F)
  pub power_supply_slots : List (PsuTempSlot F)

unfoldable pub zero_show_environment_temp : {F : Type 0} → F → ShowEnvironmentTemp F
zero_show_environment_temp z = record {
  system_status = "";
  shutdown_on_overheat = false;
  temp_sensors = [];
  power_supply_slots = [];
}

pub record PsuFan : Type 0 where
  pub status : String
  pub speed : ℤ

pub record PsuTempSensor (F : Type 0) : Type 0 where
  pub status : String
  pub temperature : F

pub record PowerSupply (F : Type 0) : Type 0 where
  pub model_name : String
  pub capacity : F
  pub dominant : Bool
  pub input_current : F
  pub output_current : F
  pub input_voltage : F
  pub output_voltage : F
  pub output_power : F
  pub state : String
  pub uptime : F
  pub managed : Bool
  pub fans : Map PsuFan
  pub temp_sensors : Map (PsuTempSensor F)

pub record ShowEnvironmentPower (F : Type 0) : Type 0 where
  pub power_supplies : Map (PowerSupply F)

unfoldable pub zero_show_environment_power : {F : Type 0} → F → ShowEnvironmentPower F
zero_show_environment_power z = record { power_supplies = [] }

pub record Fan (F : Type 0) : Type 0 where
  pub label : String
  pub max_speed : ℤ
  pub configured_speed : ℤ
  pub actual_speed : ℤ
  pub status : String
  pub uptime : F
  pub speed_stable : Bool
  pub speed_hw_override : Bool
  pub vendor_model : String
  pub last_speed_stable_change_time : F

pub record FanTraySlot (F : Type 0) : Type 0 where
  pub label : String
  pub status : String
  pub speed : ℤ
  pub fans : List (Fan F)

pub record ShowEnvironmentCooling (F : Type 0) : Type 0 where
  pub system_status : String
  pub fans_status : String
  pub ambient_temperature : F
  pub airflow_direction : String
  pub cooling_mode : String
  pub shutdown_on_insufficient_fans : Bool
  pub fan_tray_slots : List (FanTraySlot F)
  pub power_supply_slots : List (FanTraySlot F)

unfoldable pub zero_show_environment_cooling : {F : Type 0} → F → ShowEnvironmentCooling F
zero_show_environment_cooling z = record {
  system_status = "";
  fans_status = "";
  ambient_temperature = z;
  airflow_direction = "";
  cooling_mode = "";
  shutdown_on_insufficient_fans = false;
  fan_tray_slots = [];
  power_supply_slots = [];
}
