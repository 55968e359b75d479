-- ===== src/Drivers/Pci/Ports.antt =====
-- arch/x86/pci.c: the aligned accesses by the two ports of an x86, behind which stands what the devices
-- hold. The address port is written before each access, so that a read leaves the state as good as it
-- was.
use sysx.Base.{ℕ, ◌+◌, ◌*◌, ◌/◌, ◌%◌, ◌==◌, if◌then◌else◌, arith}
use sysx.Base.Memory.{update}
use sysx.Drivers.Pci.{Config, IsMemory}

-- The address port, and the dword at each address of the configuration space.
pub record Ports : Type 0 where
  pub address : ℕ
  pub device : ℕ → ℕ

abbrev pub config_address_port : ℕ
config_address_port = 0xcf8

abbrev pub config_data_port : ℕ
config_data_port = 0xcfc

-- `pci_cfg_address`, for a device below 32 and a function below 8, whose fields do not overlap.
pub cfg_address : ℕ → ℕ → ℕ → ℕ → ℕ
cfg_address bus dev func offset =
    0x8000_0000 + bus * 0x1_0000 + dev * 0x800 + func * 0x100 + offset / 4 * 4

pub outl : ℕ → ℕ → Ports → Ports
outl port val s =
    if port == config_address_port
    then record s { address = val }
    else if port == config_data_port
    then record s { device = update s.device s.address (val % 0x1_0000_0000) }
    else s

pub inl_port : ℕ → Ports → ℕ
inl_port port s = if port == config_data_port then s.device s.address % 0x1_0000_0000 else s.address

unfoldable pub read_dword_aligned : Ports → ℕ → ℕ → ℕ → ℕ → ℕ
unfolding outl inl_port cfg_address
read_dword_aligned s bus dev func offset =
    inl_port config_data_port (outl config_address_port (cfg_address bus dev func offset) s)

unfoldable pub write_dword_aligned : ℕ → ℕ → ℕ → ℕ → ℕ → Ports → Ports
unfolding outl cfg_address
write_dword_aligned bus dev func offset val s =
    outl config_data_port val (outl config_address_port (cfg_address bus dev func offset) s)

abbrev pub ports : Config Ports
ports = record { read_aligned = read_dword_aligned; write_aligned = write_dword_aligned }

pub ports-IsMemory : IsMemory ports
unfolding read_dword_aligned write_dword_aligned
ports-IsMemory = record {
  read-lt = λ s bus dev func offset. omega arith;
  read-write = λ s bus dev func offset val offset' hb hd hf ho ho' hv. ground arith;
}
