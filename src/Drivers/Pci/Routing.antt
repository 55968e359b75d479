-- ===== src/Drivers/Pci/Routing.antt =====
-- drivers/pci.c and arch/x86/pci.c: the interrupt of a function. The tables of the multiprocessor
-- specification are lists, and `mp_busid` is a function, since the assertion on its index only
-- prints. A route has the value that is written through `flags`, if one is.
mod Tests
use sysx.Base.{
  ℕ, ◌+◌, ◌*◌, ◌/◌, ◌%◌, Bool, true, false, ◌&&◌, ◌||◌, Option, none, some, List, [], ◌∷◌, leb,
  ◌==◌, ◌!=◌, if◌then◌else◌, add_size, size_max,
}
use sysx.Drivers.Pci.{Config, read_word}

pub record Route : Type 0 where
  pub irq : ℕ
  pub flags : Option ℕ

abbrev pub no_route : Route
no_route = record { irq = size_max; flags = none }

-- `mp_cfg_entry_t`: its type, and `irq_assign`.
pub record Entry : Type 0 where
  pub kind : ℕ
  pub flags : ℕ
  pub bus_src : ℕ
  pub irq_src : ℕ
  pub id_dest : ℕ
  pub intin_dest : ℕ

pub record Ioapic : Type 0 where
  pub id : ℕ
  pub gsi_base : ℕ

-- `apic_enabled`, `ioapic_irq_gsi`, `acpi_enabled`, `mp_cfg`, `mp_busid_cnt`, `mp_busid` and `ioapic_info`.
pub record Platform : Type 0 where
  pub apic_enabled : Bool
  pub irq_gsi : ℕ → ℕ
  pub acpi_enabled : Bool
  pub mp_cfg : Option (List Entry)
  pub busid_cnt : ℕ
  pub busid : ℕ → ℕ
  pub ioapics : List Ioapic

-- `pci_arch_get_irq_routing`
unfoldable pub get_irq_routing : {S : Type 0} → Platform → Config S → S → ℕ → ℕ → ℕ → ℕ → Route
get_irq_routing e c s bus dev func pin =
    let irq = read_word c bus dev func s 0x3c in
    if (pin == 255 && irq / 256 != 0 && leb (irq / 256) 4 || irq / 256 == pin) && leb (irq % 256) 15
    then record {
      irq = (if e.apic_enabled then e.irq_gsi (irq % 256) else irq % 256);
      flags = some 1;
    }
    else no_route

-- PCI_IRQ_ACTIVE_LOW and PCI_IRQ_EDGE, of the flags of an entry.
abbrev pub route_flags : ℕ → ℕ
route_flags flags = (if flags / 2 % 2 == 0 then 0 else 2) + (if flags / 8 % 2 == 0 then 1 else 0)

-- Whether an entry is for the pin of the device.
abbrev pub assigns : (ℕ → ℕ) → ℕ → ℕ → ℕ → Entry → Bool
assigns busid bus dev pin e =
    e.kind == 3
    && busid e.bus_src == 13
    && (bus == e.bus_src && dev == e.irq_src / 4 && pin == e.irq_src % 4)

-- The loop over `ioapic_info`.
pub find_ioapic : Entry → List Ioapic → Route
find_ioapic e [] = no_route
find_ioapic e (a ∷ rest) =
    if a.id == e.id_dest
    then record { irq = add_size a.gsi_base e.intin_dest; flags = some (route_flags e.flags) }
    else find_ioapic e rest

-- The loop over the entries, which ends at the first for the pin, also if its controller is unknown.
pub find_entry : Platform → ℕ → ℕ → ℕ → List Entry → Route
unfolding find_ioapic
find_entry p bus dev pin [] = no_route
find_entry p bus dev pin (e ∷ rest) =
    if assigns p.busid bus dev pin e then find_ioapic e p.ioapics else find_entry p bus dev pin rest

-- `pci_arch_route_irq`
unfoldable pub arch_route_irq : Platform → ℕ → ℕ → ℕ → Route
unfolding find_entry
arch_route_irq p bus dev pin = if p.acpi_enabled then no_route else (elim p.mp_cfg [
  | none ↦ no_route
  | some entries ↦
      if p.apic_enabled && p.busid_cnt != 0 then find_entry p bus dev pin entries else no_route
])

-- A route, or the next if there is none; flags that were written stay unless they are written again.
abbrev pub or_else : Route → Route → Route
or_else r next =
    if r.irq == size_max
    then record { irq = next.irq; flags = elim next.flags [ none ↦ r.flags | some f ↦ some f ] }
    else r

-- `pci_route_irq`; `acpi` is `acpi_pci_route_irq`.
unfoldable pub route_irq :
    {S : Type 0} → Platform → (ℕ → ℕ → ℕ → ℕ → Route) → Config S → S → ℕ → ℕ → ℕ → ℕ → Route
unfolding get_irq_routing arch_route_irq
route_irq p acpi c s bus dev func pin =
    or_else
      (or_else (get_irq_routing p c s bus dev func pin)
        (if p.acpi_enabled then acpi bus dev func pin else no_route))
      (arch_route_irq p bus dev pin)
