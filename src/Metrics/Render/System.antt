-- ===== src/Metrics/Render/System.antt =====
-- collectVersion, collectCPUMemory, collectNTP and collectCapacity of internal/metrics/collector.go.
use arex.Prelude.{
  ℕ, ltb, String, join, List, [], ◌∷◌, ◌++◌, Option, none, some, is_some, is_empty, flat_map,
  if◌then◌else◌,
}
use arex.Prelude.Assoc.{for_entries}
use arex.Eapi.Types.System.{
  ShowVersion, ShowProcessesTop, TopPhysical, TopCpu, NtpPeer, ShowNtpAssociations,
  HardwareCapacity, ShowHardwareCapacity,
}
use arex.Eapi.Methods.{selected, reachable_samples, sync_source}
use arex.Metrics.Emit.{Host, Metric, set, set_bool, set_time}

module _ {F : Type 0} ⦃h : Host F⦄ where
  -- kilobytes to bytes
  abbrev pub kib : ℕ → F
  kib n = h.mul (h.of_ℕ n) (h.of_ℕ 1024)

  unfoldable pub collect_version : String → ShowVersion F → List (Metric F)
  unfolding set set_time
  collect_version label v =
      set "arista_info" (h.of_ℕ 1) (
        label ∷ v.model_name ∷ v.serial_number ∷ v.version ∷ v.system_mac_address ∷ v.architecture
        ∷ [])
      ++ set_time "arista_boot_timestamp_seconds" v.bootup_timestamp (label ∷ [])
      ++ set "arista_memory_total_bytes" (kib v.mem_total) (label ∷ [])
      ++ set "arista_memory_available_bytes" (kib v.mem_free) (label ∷ [])

  unfoldable pub collect_cpu : String → TopCpu F → List (Metric F)
  unfolding set
  collect_cpu label cpu =
      set "arista_cpu_user_percent" cpu.user (label ∷ [])
      ++ set "arista_cpu_system_percent" cpu.system (label ∷ [])
      ++ set "arista_cpu_nice_percent" cpu.nice (label ∷ [])
      ++ set "arista_cpu_idle_percent" cpu.idle (label ∷ [])
      ++ set "arista_cpu_iowait_percent" cpu.io_wait (label ∷ [])
      ++ set "arista_cpu_irq_percent" cpu.hw_irq (label ∷ [])
      ++ set "arista_cpu_softirq_percent" cpu.sw_irq (label ∷ [])
      ++ set "arista_cpu_steal_percent" cpu.stolen (label ∷ [])

  -- Only three load averages are emitted.
  unfoldable pub collect_load : String → List F → List (Metric F)
  unfolding set
  collect_load label (one ∷ five ∷ fifteen ∷ []) =
      set "arista_load_avg_1m" one (label ∷ [])
      ++ set "arista_load_avg_5m" five (label ∷ [])
      ++ set "arista_load_avg_15m" fifteen (label ∷ [])
  collect_load label averages = []

  unfoldable pub collect_memory : String → TopPhysical → List (Metric F)
  unfolding set
  collect_memory label m =
      if ltb 0 m.total
      then set "arista_memory_free_bytes" (kib m.free) (label ∷ [])
        ++ set "arista_memory_used_bytes" (kib m.used) (label ∷ [])
        ++ set "arista_memory_buffer_bytes" (kib m.buffer) (label ∷ [])
      else []

  unfoldable pub collect_cpu_memory : String → ShowProcessesTop F → List (Metric F)
  unfolding collect_cpu collect_load collect_memory
  collect_cpu_memory label p =
      collect_cpu label p.cpu_info.cpu
      ++ collect_load label p.time_info.load_avg
      ++ collect_memory label p.mem_info.physical

  abbrev pub ms_to_seconds : F → F
  ms_to_seconds ms = h.quot ms (h.of_ℕ 1000)

  unfoldable pub collect_ntp_peer : String → String → NtpPeer F → List (Metric F)
  unfolding set set_bool set_time
  collect_ntp_peer label peer p =
      set "arista_ntp_peer_info" (h.of_ℕ 1) (label ∷ peer ∷ p.ref_id ∷ p.peer_type ∷ [])
      ++ set_bool "arista_ntp_peer_selected" (selected p) (label ∷ peer ∷ [])
      ++ set "arista_ntp_peer_stratum" (h.of_ℤ p.stratum_level) (label ∷ peer ∷ [])
      ++ set "arista_ntp_peer_poll_interval_seconds" (h.of_ℤ p.poll_interval) (label ∷ peer ∷ [])
      ++ set "arista_ntp_peer_reachable_samples" (h.of_ℤ (reachable_samples p)) (label ∷ peer ∷ [])
      ++ set "arista_ntp_peer_offset_seconds" (ms_to_seconds p.offset) (label ∷ peer ∷ [])
      ++ set "arista_ntp_peer_delay_seconds" (ms_to_seconds p.delay) (label ∷ peer ∷ [])
      ++ set "arista_ntp_peer_jitter_seconds" (ms_to_seconds p.jitter) (label ∷ peer ∷ [])
      ++ set_time "arista_ntp_peer_last_received_timestamp_seconds" p.last_received
          (label ∷ peer ∷ [])

  unfoldable pub collect_ntp_offset : String → Option (NtpPeer F) → List (Metric F)
  unfolding set
  collect_ntp_offset label none = []
  collect_ntp_offset label (some sel) =
      set "arista_ntp_offset_seconds" (ms_to_seconds sel.offset) (label ∷ [])

  unfoldable pub collect_ntp : String → ShowNtpAssociations F → List (Metric F)
  unfolding set_bool collect_ntp_offset sync_source collect_ntp_peer
  collect_ntp label n =
      set_bool "arista_ntp_synchronised" (is_some (sync_source n)) (label ∷ [])
      ++ collect_ntp_offset label (sync_source n)
      ++ for_entries (collect_ntp_peer label) n.peers

  unfoldable pub collect_capacity_row : String → HardwareCapacity → List (Metric F)
  unfolding set
  collect_capacity_row label r =
      set "arista_hardware_capacity_used" (h.of_ℤ r.used)
        (label ∷ r.table ∷ r.feature ∷ r.chip ∷ [])
      ++ set "arista_hardware_capacity_free" (h.of_ℤ r.free)
          (label ∷ r.table ∷ r.feature ∷ r.chip ∷ [])
      ++ set "arista_hardware_capacity_limit" (h.of_ℤ r.max_limit)
          (label ∷ r.table ∷ r.feature ∷ r.chip ∷ [])
      ++ set "arista_hardware_capacity_high_watermark" (h.of_ℤ r.high_watermark)
          (label ∷ r.table ∷ r.feature ∷ r.chip ∷ [])
      ++ (if is_empty r.shared_features
          then []
          else set "arista_hardware_capacity_info" (h.of_ℕ 1)
              (label ∷ r.table ∷ r.feature ∷ r.chip ∷ join "," r.shared_features ∷ []))

  unfoldable pub collect_capacity : String → ShowHardwareCapacity → List (Metric F)
  unfolding collect_capacity_row
  collect_capacity label c = flat_map (collect_capacity_row label) c.tables
