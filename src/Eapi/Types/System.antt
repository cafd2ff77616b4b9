-- ===== src/Eapi/Types/System.antt =====
-- What EOS answers to the show commands for show version, processes, NTP and hardware capacity (internal/eapi/types.go): each struct's fields,
-- with float64 as the type F, and its zero value.
use arex.Prelude.{ℕ, Bool, String, [], List}
use arex.Prelude.Int.{ℤ, pos}
use arex.Prelude.Assoc.{Map}

pub record ShowVersion (F : Type 0) : Type 0 where
  pub mfg_name : String
  pub model_name : String
  pub hardware_revision : String
  pub serial_number : String
  pub system_mac_address : String
  pub version : String
  pub architecture : String
  pub bootup_timestamp : F
  pub uptime : F
  pub mem_total : ℕ
  pub mem_free : ℕ

unfoldable pub zero_show_version : {F : Type 0} → F → ShowVersion F
zero_show_version z = record {
  mfg_name = "";
  model_name = "";
  hardware_revision = "";
  serial_number = "";
  system_mac_address = "";
  version = "";
  architecture = "";
  bootup_timestamp = z;
  uptime = z;
  mem_total = 0;
  mem_free = 0;
}

pub record TopTimeInfo (F : Type 0) : Type 0 where
  pub current_time : F
  pub up_time : F
  pub load_avg : List F

unfoldable pub zero_top_time_info : {F : Type 0} → F → TopTimeInfo F
zero_top_time_info z = record { current_time = z; up_time = z; load_avg = [] }

pub record TopCpu (F : Type 0) : Type 0 where
  pub user : F
  pub system : F
  pub nice : F
  pub idle : F
  pub io_wait : F
  pub hw_irq : F
  pub sw_irq : F
  pub stolen : F

unfoldable pub zero_top_cpu : {F : Type 0} → F → TopCpu F
zero_top_cpu z = record {
  user = z;
  system = z;
  nice = z;
  idle = z;
  io_wait = z;
  hw_irq = z;
  sw_irq = z;
  stolen = z;
}

pub record TopCpuInfo (F : Type 0) : Type 0 where
  pub cpu : TopCpu F

unfoldable pub zero_top_cpu_info : {F : Type 0} → F → TopCpuInfo F
unfolding zero_top_cpu
zero_top_cpu_info z = record { cpu = zero_top_cpu z }

pub record TopPhysical : Type 0 where
  pub total : ℕ
  pub used : ℕ
  pub free : ℕ
  pub buffer : ℕ

unfoldable pub zero_top_physical : TopPhysical
zero_top_physical = record { total = 0; used = 0; free = 0; buffer = 0 }

pub record TopMemInfo : Type 0 where
  pub physical : TopPhysical

unfoldable pub zero_top_mem_info : TopMemInfo
unfolding zero_top_physical
zero_top_mem_info = record { physical = zero_top_physical }

pub record ShowProcessesTop (F : Type 0) : Type 0 where
  pub time_info : TopTimeInfo F
  pub cpu_info : TopCpuInfo F
  pub mem_info : TopMemInfo

unfoldable pub zero_show_processes_top : {F : Type 0} → F → ShowProcessesTop F
unfolding zero_top_time_info zero_top_cpu_info zero_top_mem_info
zero_show_processes_top z = record {
  time_info = zero_top_time_info z;
  cpu_info = zero_top_cpu_info z;
  mem_info = zero_top_mem_info;
}

pub record NtpPeer (F : Type 0) : Type 0 where
  pub condition : String
  pub peer_ip_addr : String
  pub ref_id : String
  pub stratum_level : ℤ
  pub peer_type : String
  pub last_received : F
  pub poll_interval : ℤ
  pub reachability_history : List Bool
  pub delay : F
  pub offset : F
  pub jitter : F

unfoldable pub zero_ntp_peer : {F : Type 0} → F → NtpPeer F
zero_ntp_peer z = record {
  condition = "";
  peer_ip_addr = "";
  ref_id = "";
  stratum_level = pos 0;
  peer_type = "";
  last_received = z;
  poll_interval = pos 0;
  reachability_history = [];
  delay = z;
  offset = z;
  jitter = z;
}

pub record ShowNtpAssociations (F : Type 0) : Type 0 where
  pub peers : Map (NtpPeer F)

unfoldable pub zero_show_ntp_associations : {F : Type 0} → F → ShowNtpAssociations F
zero_show_ntp_associations z = record { peers = [] }

pub record HardwareCapacity : Type 0 where
  pub table : String
  pub feature : String
  pub chip : String
  pub used : ℤ
  pub free : ℤ
  pub max_limit : ℤ
  pub high_watermark : ℤ
  pub used_percent : ℤ
  pub committed : ℤ
  pub shared_features : List String

pub record ShowHardwareCapacity : Type 0 where
  pub tables : List HardwareCapacity

unfoldable pub zero_show_hardware_capacity : ShowHardwareCapacity
zero_show_hardware_capacity = record { tables = [] }
