-- ===== src/Drivers/Pci/Scan.antt =====
-- drivers/pci.c: the functions that answer on the buses are put into the tree of devices. The two
-- roots of the tree hold lists of nodes, the last one added first; the names of nodes and messages are
-- left out, and so are the writes that reads make to the address port. `answers` says of the next
-- calls of `kcalloc` whether they succeed; behind its end they do.
pub mod Finds
use sysx.Base.{
  ℕ, zero, suc, ◌+◌, ◌/◌, ◌%◌, Bool, true, false, ◌&&◌, ◌||◌, Option, none, some, List, [], ◌∷◌,
  ◌==◌, ◌!=◌, if◌then◌else◌,
}
use sysx.Drivers.Pci.{Config, read_dword, read_word, read_byte}

-- `pci_devtree_t`, without the header.
pub record PciDevice : Type 0 where
  pub vid : ℕ
  pub pid : ℕ
  pub class : ℕ
  pub subclass : ℕ
  pub bus : ℕ
  pub dev : ℕ
  pub func : ℕ

-- The children of `pci_devtree_geo_root` and of `pci_devtree_id_root`.
pub record Tree : Type 0 where
  pub geo : List PciDevice
  pub ids : List PciDevice
  pub answers : List Bool

-- `kcalloc` of a node, and `devtree_add_child`, for each of the two roots.
pub add_geo : PciDevice → Tree → Tree
add_geo d t = elim t.answers [
  | [] ↦ record t { geo = d ∷ t.geo }
  | true ∷ more ↦ record t { geo = d ∷ t.geo; answers = more }
  | false ∷ more ↦ record t { answers = more }
]

pub add_id : PciDevice → Tree → Tree
add_id d t = elim t.answers [
  | [] ↦ record t { ids = d ∷ t.ids }
  | true ∷ more ↦ record t { ids = d ∷ t.ids; answers = more }
  | false ∷ more ↦ record t { answers = more }
]

module _ {S : Type 0} (c : Config S) (s : S) where
  -- `pci_read_vid`, and the test of `pci_read_hdrtype` for more functions.
  abbrev pub vendor : ℕ → ℕ → ℕ → ℕ
  vendor bus dev func = read_word c bus dev func s 0

  unfoldable pub is_multifunction : ℕ → ℕ → ℕ → Bool
  is_multifunction bus dev func = read_byte c bus dev func s 0x0e / 128 % 2 == 1

  -- The node of a function.
  unfoldable pub describe : ℕ → ℕ → ℕ → PciDevice
  describe bus dev func =
      let vp = read_dword c bus dev func s 0 in
      let cs = read_word c bus dev func s 0x0a in
      record {
        vid = vp % 0x1_0000;
        pid = vp / 0x1_0000;
        class = cs / 256;
        subclass = cs % 256;
        bus = bus;
        dev = dev;
        func = func;
      }

  unfoldable pub is_bridge : PciDevice → Bool
  is_bridge d = d.class == 6 && (d.subclass == 4 || d.subclass == 9)

  -- `pci_scan_func`: whether the function exists. `scan` is `pci_scan_bus`; `none` is a scan that does
  -- not end.
  pub scan_func : (ℕ → Tree → Option Tree) → ℕ → ℕ → ℕ → Tree → Option (Bool × Tree)
  unfolding add_geo add_id is_bridge describe
  scan_func scan bus dev func t =
      let d = describe bus dev func in
      let t' = add_id d (add_geo d t) in
      if d.vid == 0xffff
      then some (false, t)
      else if is_bridge d
      then elim (scan (read_byte c bus dev func s 0x19) t') [
        | none ↦ none
        | some t'' ↦ some (true, t'')
      ]
      else some (true, t')

  -- The loop over the other functions of a device, with `left` of them to go.
  pub scan_funcs : (ℕ → Tree → Option Tree) → ℕ → ℕ → ℕ → ℕ → Tree → Option Tree
  unfolding scan_func
  scan_funcs scan bus dev zero func t = some t
  scan_funcs scan bus dev (suc left) func t = elim (scan_func scan bus dev func t) [
    | none ↦ none
    | some (found, t') ↦ scan_funcs scan bus dev left (func + 1) t'
  ]

  pub scan_dev : (ℕ → Tree → Option Tree) → ℕ → ℕ → Tree → Option Tree
  unfolding scan_funcs is_multifunction
  scan_dev scan bus dev t = elim (scan_func scan bus dev 0 t) [
    | none ↦ none
    | some (found, t') ↦
        if found && is_multifunction bus dev 0 then scan_funcs scan bus dev 7 1 t' else some t'
  ]

  -- The loop of `pci_scan_bus`, with `left` devices to go.
  pub scan_devs : (ℕ → Tree → Option Tree) → ℕ → ℕ → ℕ → Tree → Option Tree
  unfolding scan_dev
  scan_devs scan bus zero dev t = some t
  scan_devs scan bus (suc left) dev t = elim (scan_dev scan bus dev t) [
    | none ↦ none
    | some t' ↦ scan_devs scan bus left (dev + 1) t'
  ]

  -- `pci_scan_bus`, on fuel for the bridges on the way: a bridge can lead back to its own bus.
  pub scan_bus : ℕ → ℕ → Tree → Option Tree
  unfolding scan_devs
  scan_bus zero bus t = none
  scan_bus (suc fuel) bus t = scan_devs (scan_bus fuel) bus 32 0 t

  -- The loop of `pci_init` over host controllers; it ends at the first that exists.
  pub scan_hosts : ℕ → ℕ → ℕ → Tree → Option Tree
  unfolding scan_bus
  scan_hosts fuel zero func t = some t
  scan_hosts fuel (suc left) func t =
      if vendor 0 0 func != 0xffff then some t else (elim (scan_bus fuel func t) [
        | none ↦ none
        | some t' ↦ scan_hosts fuel left (func + 1) t'
      ])

  -- `pci_init`
  pub init : ℕ → Tree → Option Tree
  unfolding scan_hosts is_multifunction
  init fuel t = if is_multifunction 0 0 0 then scan_hosts fuel 8 0 t else scan_bus fuel 0 t
