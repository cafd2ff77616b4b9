-- ===== src/Metrics/Render/Described/Hardware.antt =====
-- Every sample that collectTemperature, collectPower, collectCooling, collectInterfaces and
-- collectBGP of internal/metrics/collector.go send is of a described family.
use arex.Prelude.{ℕ, String}
use arex.Metrics.Emit.{Host}
use arex.Metrics.Emit.Laws.{Counts, AllDescribed, described_rules, is_family}
use arex.Eapi.Types.Environment.{
  TempSensor, ShowEnvironmentTemp, PowerSupply, ShowEnvironmentPower, Fan, ShowEnvironmentCooling,
}
use arex.Eapi.Types.Interfaces.{
  Interface, InterfaceCounters, InputErrorsDetail, OutputErrorsDetail, ShowInterfaces, BgpPeer,
  ShowBgpSummary,
}
use arex.Metrics.Render.Environment.{
  collect_sensor, collect_system_sensor, collect_slot_sensor, collect_temperature,
  collect_power_supply, collect_power, collect_fan, collect_cooling,
}
use arex.Metrics.Render.Interfaces.{
  collect_cast, collect_packets, in_error, out_error, collect_in_errors, collect_out_errors,
  collect_totals, collect_speed, collect_interface, collect_interfaces, collect_bgp_peer,
  collect_bgp,
}

module _ {F : Type 0} ⦃h : Host F⦄ ⦃counts : Counts h⦄ {label : String} where
  collect_system_sensor-IsDescribed :
      (s : TempSensor F) → AllDescribed {F = F} label (collect_system_sensor label s)
  unfolding collect_sensor is_family
  collect_system_sensor-IsDescribed s = search described_rules depth 16 fits 20000

  collect_slot_sensor-IsDescribed :
      (rel_pos : String) (s : TempSensor F)
      → AllDescribed {F = F} label (collect_slot_sensor label rel_pos s)
  unfolding collect_sensor is_family
  collect_slot_sensor-IsDescribed rel_pos s = search described_rules depth 16 fits 20000

  pub collect_temperature-IsDescribed :
      (env : ShowEnvironmentTemp F) → AllDescribed {F = F} label (collect_temperature label env)
  unfolding collect_temperature is_family
  collect_temperature-IsDescribed env =
      search (described_rules, collect_system_sensor-IsDescribed, collect_slot_sensor-IsDescribed)
        depth 16 fits 20000

  collect_power_supply-IsDescribed :
      (slot : String) (psu : PowerSupply F)
      → AllDescribed {F = F} label (collect_power_supply label slot psu)
  unfolding collect_power_supply is_family
  collect_power_supply-IsDescribed slot psu = search described_rules depth 16 fits 20000

  pub collect_power-IsDescribed :
      (env : ShowEnvironmentPower F) → AllDescribed {F = F} label (collect_power label env)
  unfolding collect_power
  collect_power-IsDescribed env = search (described_rules, collect_power_supply-IsDescribed)

  collect_fan-IsDescribed :
      (tray : String) (location : String) (f : Fan F)
      → AllDescribed {F = F} label (collect_fan label tray location f)
  unfolding collect_fan is_family
  collect_fan-IsDescribed tray location f = search described_rules depth 16 fits 20000

  pub collect_cooling-IsDescribed :
      (env : ShowEnvironmentCooling F) → AllDescribed {F = F} label (collect_cooling label env)
  unfolding collect_cooling is_family
  collect_cooling-IsDescribed env =
      search (described_rules, collect_fan-IsDescribed) depth 16 fits 20000

  collect_cast-IsDescribed :
      (name : String) (cast : String) (incoming : ℕ) (outgoing : ℕ)
      → AllDescribed {F = F} label (collect_cast label name cast incoming outgoing)
  unfolding collect_cast is_family
  collect_cast-IsDescribed name cast incoming outgoing = search described_rules

  collect_packets-IsDescribed :
      (name : String) (c : InterfaceCounters F)
      → AllDescribed {F = F} label (collect_packets label name c)
  unfolding collect_packets
  collect_packets-IsDescribed name c = search (described_rules, collect_cast-IsDescribed)

  in_error-IsDescribed :
      (name : String) (cause : String) (v : ℕ)
      → AllDescribed {F = F} label (in_error label name cause v)
  unfolding in_error is_family
  in_error-IsDescribed name cause v = search described_rules

  out_error-IsDescribed :
      (name : String) (cause : String) (v : ℕ)
      → AllDescribed {F = F} label (out_error label name cause v)
  unfolding out_error is_family
  out_error-IsDescribed name cause v = search described_rules

  collect_in_errors-IsDescribed :
      (name : String) (d : InputErrorsDetail)
      → AllDescribed {F = F} label (collect_in_errors label name d)
  unfolding collect_in_errors
  collect_in_errors-IsDescribed name d =
      search (described_rules, in_error-IsDescribed) depth 16 fits 20000

  collect_out_errors-IsDescribed :
      (name : String) (o : OutputErrorsDetail)
      → AllDescribed {F = F} label (collect_out_errors label name o)
  unfolding collect_out_errors
  collect_out_errors-IsDescribed name o =
      search (described_rules, out_error-IsDescribed) depth 16 fits 20000

  collect_totals-IsDescribed :
      (name : String) (c : InterfaceCounters F)
      → AllDescribed {F = F} label (collect_totals label name c)
  unfolding collect_totals is_family
  collect_totals-IsDescribed name c = search described_rules depth 16 fits 20000

  collect_speed-IsDescribed :
      (name : String) (bandwidth : ℕ)
      → AllDescribed {F = F} label (collect_speed label name bandwidth)
  unfolding collect_speed is_family
  collect_speed-IsDescribed name bandwidth = search described_rules

  collect_interface-IsDescribed :
      (name : String) (i : Interface F)
      → AllDescribed {F = F} label (collect_interface label name i)
  unfolding collect_interface is_family
  collect_interface-IsDescribed name i =
      search
        (
          described_rules, collect_packets-IsDescribed, collect_in_errors-IsDescribed,
          collect_out_errors-IsDescribed, collect_totals-IsDescribed, collect_speed-IsDescribed,
        )
        depth 16 fits 20000

  pub collect_interfaces-IsDescribed :
      (iface : String) (s : ShowInterfaces F)
      → AllDescribed {F = F} label (collect_interfaces iface label s)
  unfolding collect_interfaces
  collect_interfaces-IsDescribed iface s = search (described_rules, collect_interface-IsDescribed)

  collect_bgp_peer-IsDescribed :
      (vrf : String) (peer : String) (p : BgpPeer F)
      → AllDescribed {F = F} label (collect_bgp_peer label vrf peer p)
  unfolding collect_bgp_peer is_family
  collect_bgp_peer-IsDescribed vrf peer p = search described_rules depth 16 fits 20000

  pub collect_bgp-IsDescribed :
      (bgp : ShowBgpSummary F) → AllDescribed {F = F} label (collect_bgp label bgp)
  unfolding collect_bgp
  collect_bgp-IsDescribed bgp = search (described_rules, collect_bgp_peer-IsDescribed)
