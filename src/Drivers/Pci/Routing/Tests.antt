-- ===== src/Drivers/Pci/Routing/Tests.antt =====
-- A network card at device 3 whose interrupt comes from the table of the multiprocessor specification.
use sysx.Base.{ℕ, ◌==◌, if◌then◌else◌, ◌≡◌, refl, true, false, some, [], ◌∷◌}
use sysx.Drivers.Pci.{Config, read_word}
use sysx.Drivers.Pci.Routing.{
  Entry, Ioapic, Platform, no_route, get_irq_routing, route_irq, arch_route_irq, find_entry,
  find_ioapic,
}

-- Its registers say pin 1, which is INTA, and line 11.
abbrev card : Config ℕ
card = record {
  read_aligned = λ s bus dev func offset. 0x0000_010b;
  write_aligned = λ bus dev func offset val s. s;
}

abbrev isa : Entry
isa = record { kind = 3; flags = 0; bus_src = 1; irq_src = 12; id_dest = 2; intin_dest = 1 }

-- INTA of device 3, active low and level triggered.
abbrev inta : Entry
inta = record { kind = 3; flags = 10; bus_src = 0; irq_src = 12; id_dest = 2; intin_dest = 5 }

abbrev first_ioapic : Ioapic
first_ioapic = record { id = 1; gsi_base = 0 }

abbrev second_ioapic : Ioapic
second_ioapic = record { id = 2; gsi_base = 24 }

abbrev board : Platform
board = record {
  apic_enabled = true;
  irq_gsi = λ n. n;
  acpi_enabled = false;
  mp_cfg = some (isa ∷ inta ∷ []);
  busid_cnt = 2;
  busid = λ n. if n == 0 then 13 else 6;
  ioapics = first_ioapic ∷ second_ioapic ∷ [];
}

-- The line that the registers hold for INTA is found for pin 1, not for pin 0, which is INTA too.
line_of_pin :
    (get_irq_routing board card 0 0 3 0 0 ≡ no_route)
    × (get_irq_routing board card 0 0 3 0 1 ≡ record { irq = 11; flags = some 1 })
unfolding get_irq_routing read_word
line_of_pin = (refl, refl)

-- Pin 0 is routed by the tables, to input 5 of the second controller, active low.
card-routed :
    route_irq board (λ bus dev func pin. no_route) card 0 0 3 0 0
    ≡ record { irq = 29; flags = some 2 }
unfolding route_irq arch_route_irq find_entry find_ioapic get_irq_routing read_word
card-routed = refl
