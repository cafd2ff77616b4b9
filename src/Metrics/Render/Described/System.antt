-- ===== src/Metrics/Render/Described/System.antt =====
-- Every sample that collectVersion, collectCPUMemory, collectNTP and collectCapacity of
-- internal/metrics/collector.go send is of a described family.
use arex.Prelude.{String, List, [], ◌∷◌, Option, none, some}
use arex.Metrics.Emit.{Host}
use arex.Metrics.Emit.Laws.{Counts, AllDescribed, described_rules, is_family}
use arex.Eapi.Types.System.{
  ShowVersion, TopCpu, TopPhysical, ShowProcessesTop, NtpPeer, ShowNtpAssociations,
  HardwareCapacity, ShowHardwareCapacity,
}
use arex.Metrics.Render.System.{
  collect_version, collect_cpu, collect_load, collect_memory, collect_cpu_memory, collect_ntp_peer,
  collect_ntp_offset, collect_ntp, collect_capacity_row, collect_capacity,
}

module _ {F : Type 0} ⦃h : Host F⦄ ⦃counts : Counts h⦄ {label : String} where
  pub collect_version-IsDescribed :
      (v : ShowVersion F) → AllDescribed {F = F} label (collect_version label v)
  unfolding collect_version is_family
  collect_version-IsDescribed v = search described_rules

  collect_cpu-IsDescribed : (v : TopCpu F) → AllDescribed {F = F} label (collect_cpu label v)
  unfolding collect_cpu is_family
  collect_cpu-IsDescribed v = search described_rules depth 16 fits 20000

  collect_load-IsDescribed : (l : List F) → AllDescribed label (collect_load label l)
  unfolding collect_load is_family
  collect_load-IsDescribed [] = search described_rules
  collect_load-IsDescribed (a ∷ []) = search described_rules
  collect_load-IsDescribed (a ∷ b ∷ []) = search described_rules
  collect_load-IsDescribed (a ∷ b ∷ c ∷ []) = search described_rules
  collect_load-IsDescribed (a ∷ b ∷ c ∷ d ∷ l) = search described_rules

  collect_memory-IsDescribed :
      (m : TopPhysical) → AllDescribed {F = F} label (collect_memory label m)
  unfolding collect_memory is_family
  collect_memory-IsDescribed m = search described_rules

  pub collect_cpu_memory-IsDescribed :
      (p : ShowProcessesTop F) → AllDescribed {F = F} label (collect_cpu_memory label p)
  unfolding collect_cpu_memory
  collect_cpu_memory-IsDescribed p = search (
    described_rules, collect_cpu-IsDescribed, collect_load-IsDescribed, collect_memory-IsDescribed,
  )

  collect_ntp_peer-IsDescribed :
      (peer : String) (p : NtpPeer F) → AllDescribed {F = F} label (collect_ntp_peer label peer p)
  unfolding collect_ntp_peer is_family
  collect_ntp_peer-IsDescribed peer p = search described_rules depth 16 fits 20000

  collect_ntp_offset-IsDescribed :
      (o : Option (NtpPeer F)) → AllDescribed label (collect_ntp_offset label o)
  unfolding collect_ntp_offset is_family
  collect_ntp_offset-IsDescribed none = search described_rules
  collect_ntp_offset-IsDescribed (some x) = search described_rules

  pub collect_ntp-IsDescribed :
      (n : ShowNtpAssociations F) → AllDescribed {F = F} label (collect_ntp label n)
  unfolding collect_ntp is_family
  collect_ntp-IsDescribed n =
      search (described_rules, collect_ntp_peer-IsDescribed, collect_ntp_offset-IsDescribed)

  collect_capacity_row-IsDescribed :
      (r : HardwareCapacity) → AllDescribed {F = F} label (collect_capacity_row label r)
  unfolding collect_capacity_row is_family
  collect_capacity_row-IsDescribed r = search described_rules

  pub collect_capacity-IsDescribed :
      (c : ShowHardwareCapacity) → AllDescribed {F = F} label (collect_capacity label c)
  unfolding collect_capacity
  collect_capacity-IsDescribed c = search (described_rules, collect_capacity_row-IsDescribed)
