-- ===== src/Metrics/Render/Interfaces.antt =====
-- collectInterfaces and collectBGP of internal/metrics/collector.go. `iface` is the interface that
-- a query asks for, empty for all.
use arex.Prelude.{
  ℕ, ltb, Bool, not, ◌||◌, String, nonempty, str_eq, List, [], ◌∷◌, ◌++◌, if◌then◌else◌,
}
use arex.Prelude.Int.{itoa_ℤ}
use arex.Prelude.Assoc.{for_entries}
use arex.Eapi.Types.Interfaces.{
  Interface, InterfaceCounters, InputErrorsDetail, OutputErrorsDetail, ShowInterfaces, BgpPeer,
  BgpVrf, ShowBgpSummary,
}
use arex.Metrics.Emit.{Host, Metric, set, set_bool, set_time}

-- `c.iface == "" || c.iface == name`
abbrev pub match_iface : String → String → Bool
match_iface iface name = not (nonempty iface) || str_eq iface name

module _ {F : Type 0} ⦃h : Host F⦄ where
  unfoldable pub collect_cast : String → String → String → ℕ → ℕ → List (Metric F)
  unfolding set
  collect_cast label name cast incoming outgoing =
      set "arista_interface_in_packets_total" (h.of_ℕ incoming) (label ∷ name ∷ cast ∷ [])
      ++ set "arista_interface_out_packets_total" (h.of_ℕ outgoing) (label ∷ name ∷ cast ∷ [])

  unfoldable pub collect_packets : String → String → InterfaceCounters F → List (Metric F)
  unfolding collect_cast
  collect_packets label name c =
      collect_cast label name "broadcast" c.in_broadcast_pkts c.out_broadcast_pkts
      ++ collect_cast label name "multicast" c.in_multicast_pkts c.out_multicast_pkts
      ++ collect_cast label name "unicast" c.in_ucast_pkts c.out_ucast_pkts

  unfoldable pub in_error : String → String → String → ℕ → List (Metric F)
  unfolding set
  in_error label name cause v =
      set "arista_interface_in_errors_detail_total" (h.of_ℕ v) (label ∷ name ∷ cause ∷ [])

  unfoldable pub out_error : String → String → String → ℕ → List (Metric F)
  unfolding set
  out_error label name cause v =
      set "arista_interface_out_errors_detail_total" (h.of_ℕ v) (label ∷ name ∷ cause ∷ [])

  unfoldable pub collect_in_errors : String → String → InputErrorsDetail → List (Metric F)
  unfolding in_error
  collect_in_errors label name d =
      in_error label name "alignmentErrors" d.alignment_errors
      ++ in_error label name "fcsErrors" d.fcs_errors
      ++ in_error label name "giantFrames" d.giant_frames
      ++ in_error label name "runtFrames" d.runt_frames
      ++ in_error label name "rxPause" d.rx_pause
      ++ in_error label name "symbolErrors" d.symbol_errors

  unfoldable pub collect_out_errors : String → String → OutputErrorsDetail → List (Metric F)
  unfolding out_error
  collect_out_errors label name o =
      out_error label name "collisions" o.collisions
      ++ out_error label name "deferredTransmissions" o.deferred_transmissions
      ++ out_error label name "lateCollisions" o.late_collisions
      ++ out_error label name "txPause" o.tx_pause

  unfoldable pub collect_totals : String → String → InterfaceCounters F → List (Metric F)
  unfolding set
  collect_totals label name c =
      set "arista_interface_in_octets_total" (h.of_ℕ c.in_octets) (label ∷ name ∷ [])
      ++ set "arista_interface_out_octets_total" (h.of_ℕ c.out_octets) (label ∷ name ∷ [])
      ++ set "arista_interface_in_errors_total" (h.of_ℕ c.input_errors) (label ∷ name ∷ [])
      ++ set "arista_interface_out_errors_total" (h.of_ℕ c.output_errors) (label ∷ name ∷ [])
      ++ set "arista_interface_in_discards_total" (h.of_ℕ c.in_discards) (label ∷ name ∷ [])
      ++ set "arista_interface_out_discards_total" (h.of_ℕ c.out_discards) (label ∷ name ∷ [])
      ++ set "arista_interface_link_status_changes_total" (h.of_ℕ c.link_status_changes)
          (label ∷ name ∷ [])

  unfoldable pub collect_speed : String → String → ℕ → List (Metric F)
  unfolding set
  collect_speed label name bandwidth =
      if ltb 0 bandwidth
      then set "arista_interface_speed_bits_per_second" (h.of_ℕ bandwidth) (label ∷ name ∷ [])
      else []

  unfoldable pub collect_interface : String → String → Interface F → List (Metric F)
  unfolding set set_bool set_time collect_speed collect_totals collect_packets collect_in_errors
      collect_out_errors
  collect_interface label name i =
      set "arista_interface_info" (h.of_ℕ 1)
        (label ∷ name ∷ i.description ∷ i.interface_membership ∷ itoa_ℤ i.mtu ∷ [])
      ++ set_bool "arista_interface_link_up" (str_eq i.line_protocol_status "up")
          (label ∷ name ∷ [])
      ++ collect_speed label name i.bandwidth
      ++ collect_totals label name i.interface_counters
      ++ collect_packets label name i.interface_counters
      ++ collect_in_errors label name i.interface_counters.input_errors_detail
      ++ collect_out_errors label name i.interface_counters.output_errors_detail
      ++ set_time "arista_interface_last_counter_clear_timestamp_seconds"
          i.interface_counters.last_clear (label ∷ name ∷ [])
      ++ set_time "arista_interface_counter_refresh_timestamp_seconds"
          i.interface_counters.counter_refresh_time (label ∷ name ∷ [])
      ++ set_time "arista_interface_last_status_change_timestamp_seconds"
          i.last_status_change_timestamp (label ∷ name ∷ [])

  -- `continue` on an interface that the query does not ask for.
  abbrev pub if_matched :
      {V : Type 0} → String → (String → V → List (Metric F)) → String → V → List (Metric F)
  if_matched iface f name x = if match_iface iface name then f name x else []

  unfoldable pub collect_interfaces : String → String → ShowInterfaces F → List (Metric F)
  unfolding collect_interface
  collect_interfaces iface label s =
      for_entries (if_matched iface (collect_interface label)) s.interfaces

  abbrev pub peer_labels : String → String → String → BgpPeer F → List String
  peer_labels label vrf peer p = label ∷ vrf ∷ peer ∷ p.asn ∷ []

  unfoldable pub collect_bgp_peer : String → String → String → BgpPeer F → List (Metric F)
  unfolding set set_bool set_time
  collect_bgp_peer label vrf peer p =
      set "arista_bgp_peer_info" (h.of_ℕ 1) (label ∷ vrf ∷ peer ∷ p.asn ∷ p.description ∷ [])
      ++ set_bool "arista_bgp_peer_up" (str_eq p.peer_state "Established")
          (peer_labels label vrf peer p)
      ++ set_bool "arista_bgp_peer_under_maintenance" p.under_maintenance
          (peer_labels label vrf peer p)
      ++ set "arista_bgp_peer_prefixes_received" (h.of_ℤ p.prefix_received)
          (peer_labels label vrf peer p)
      ++ set "arista_bgp_peer_prefixes_accepted" (h.of_ℤ p.prefix_accepted)
          (peer_labels label vrf peer p)
      ++ set "arista_bgp_peer_prefixes_advertised" (h.of_ℤ p.prefix_advertised)
          (peer_labels label vrf peer p)
      ++ set_time "arista_bgp_peer_state_change_timestamp_seconds" p.up_down_time
          (peer_labels label vrf peer p)

  abbrev pub collect_vrf : String → String → BgpVrf F → List (Metric F)
  collect_vrf label vrf v = for_entries (collect_bgp_peer label vrf) v.peers

  unfoldable pub collect_bgp : String → ShowBgpSummary F → List (Metric F)
  unfolding collect_bgp_peer
  collect_bgp label bgp = for_entries (collect_vrf label) bgp.vrfs
