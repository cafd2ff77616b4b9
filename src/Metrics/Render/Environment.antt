-- ===== src/Metrics/Render/Environment.antt =====
-- collectTemperature, collectPower and collectCooling of internal/metrics/collector.go.
use arex.Prelude.{String, ◌+s◌, str_eq, List, [], ◌∷◌, ◌++◌, flat_map}
use arex.Prelude.Assoc.{for_entries}
use arex.Eapi.Types.Environment.{
  TempSensor, PsuTempSlot, ShowEnvironmentTemp, PowerSupply, ShowEnvironmentPower, Fan, FanTraySlot,
  ShowEnvironmentCooling,
}
use arex.Metrics.Emit.{Host, Metric, set, set_bool, set_time}

module _ {F : Type 0} ⦃h : Host F⦄ where
  abbrev pub sensor_labels : List String → TempSensor F → List String
  sensor_labels lv s = lv ++ (s.name ∷ s.description ∷ s.position ∷ [])

  unfoldable pub collect_sensor : String → TempSensor F → List String → List (Metric F)
  unfolding set set_bool
  collect_sensor prefix s lv =
      set (prefix +s "_celsius") s.current_temperature (sensor_labels lv s)
      ++ set (prefix +s "_max_celsius") s.max_temperature (sensor_labels lv s)
      ++ set (prefix +s "_overheat_threshold_celsius") s.overheat_threshold (sensor_labels lv s)
      ++ set (prefix +s "_critical_threshold_celsius") s.critical_threshold (sensor_labels lv s)
      ++ set_bool (prefix +s "_alert") s.in_alert_state (sensor_labels lv s)
      ++ set_bool (prefix +s "_sensor_ok") (str_eq s.hw_status "ok") (sensor_labels lv s)

  abbrev pub collect_system_sensor : String → TempSensor F → List (Metric F)
  collect_system_sensor label s = collect_sensor "arista_temperature" s (label ∷ "system" ∷ [])

  abbrev pub collect_slot_sensor : String → String → TempSensor F → List (Metric F)
  collect_slot_sensor label rel_pos s =
      collect_sensor "arista_psu_temperature" s (label ∷ rel_pos ∷ [])

  abbrev pub collect_slot_sensors : String → PsuTempSlot F → List (Metric F)
  collect_slot_sensors label slot =
      flat_map (collect_slot_sensor label slot.rel_pos) slot.temp_sensors

  unfoldable pub collect_temperature : String → ShowEnvironmentTemp F → List (Metric F)
  unfolding set_bool collect_sensor
  collect_temperature label env =
      set_bool "arista_temperature_system_ok" (str_eq env.system_status "temperatureOk")
        (label ∷ [])
      ++ set_bool "arista_temperature_shutdown_on_overheat" env.shutdown_on_overheat (label ∷ [])
      ++ flat_map (collect_system_sensor label) env.temp_sensors
      ++ flat_map (collect_slot_sensors label) env.power_supply_slots

  unfoldable pub collect_power_supply : String → String → PowerSupply F → List (Metric F)
  unfolding set set_bool set_time
  collect_power_supply label slot psu =
      set "arista_psu_info" (h.of_ℕ 1) (label ∷ slot ∷ psu.model_name ∷ [])
      ++ set_bool "arista_psu_ok" (str_eq psu.state "ok") (label ∷ slot ∷ [])
      ++ set "arista_psu_capacity_watts" psu.capacity (label ∷ slot ∷ [])
      ++ set "arista_psu_output_power_watts" psu.output_power (label ∷ slot ∷ [])
      ++ set "arista_psu_input_voltage_volts" psu.input_voltage (label ∷ slot ∷ [])
      ++ set "arista_psu_output_voltage_volts" psu.output_voltage (label ∷ slot ∷ [])
      ++ set "arista_psu_input_current_amps" psu.input_current (label ∷ slot ∷ [])
      ++ set "arista_psu_output_current_amps" psu.output_current (label ∷ slot ∷ [])
      ++ set_time "arista_psu_boot_timestamp_seconds" psu.uptime (label ∷ slot ∷ [])

  unfoldable pub collect_power : String → ShowEnvironmentPower F → List (Metric F)
  unfolding collect_power_supply
  collect_power label env = for_entries (collect_power_supply label) env.power_supplies

  unfoldable pub collect_fan : String → String → String → Fan F → List (Metric F)
  unfolding set set_bool set_time
  collect_fan label tray location f =
      set "arista_fan_info" (h.of_ℕ 1) (label ∷ tray ∷ f.label ∷ location ∷ f.vendor_model ∷ [])
      ++ set_bool "arista_fan_ok" (str_eq f.status "ok") (label ∷ tray ∷ f.label ∷ location ∷ [])
      ++ set "arista_fan_speed_configured_percent" (h.of_ℤ f.configured_speed)
          (label ∷ tray ∷ f.label ∷ location ∷ [])
      ++ set "arista_fan_speed_actual_percent" (h.of_ℤ f.actual_speed)
          (label ∷ tray ∷ f.label ∷ location ∷ [])
      ++ set "arista_fan_speed_max_rpm" (h.of_ℤ f.max_speed)
          (label ∷ tray ∷ f.label ∷ location ∷ [])
      ++ set_bool "arista_fan_speed_stable" f.speed_stable (label ∷ tray ∷ f.label ∷ location ∷ [])
      ++ set_time "arista_fan_boot_timestamp_seconds" f.uptime
          (label ∷ tray ∷ f.label ∷ location ∷ [])

  abbrev pub collect_tray : String → String → FanTraySlot F → List (Metric F)
  collect_tray location label tray = flat_map (collect_fan label tray.label location) tray.fans

  unfoldable pub collect_cooling : String → ShowEnvironmentCooling F → List (Metric F)
  unfolding set set_bool collect_fan
  collect_cooling label env =
      set_bool "arista_cooling_ok" (str_eq env.system_status "coolingOk") (label ∷ [])
      ++ set_bool "arista_cooling_fans_ok" (str_eq env.fans_status "fanAlarmOk") (label ∷ [])
      ++ set_bool "arista_cooling_shutdown_on_insufficient_fans" env.shutdown_on_insufficient_fans
          (label ∷ [])
      ++ set "arista_cooling_ambient_temperature_celsius" env.ambient_temperature (label ∷ [])
      ++ set "arista_cooling_info" (h.of_ℕ 1)
          (label ∷ env.airflow_direction ∷ env.cooling_mode ∷ [])
      ++ flat_map (collect_tray "fantray" label) env.fan_tray_slots
      ++ flat_map (collect_tray "psu" label) env.power_supply_slots
