-- ===== src/Drivers/Pci/Scan/Finds.antt =====
-- What a scan of a bus without bridges finds.
use sysx.Base.{
  ℕ, zero, suc, ◌+◌, ◌%◌, ◌/◌, ◌<◌, leb, ◌&&◌, ◌||◌, ◌≡◌, ◌≢◌, subst, none, refl, ap, ◌∙◌, Bool,
  true, false, not, Option, some, List, [], ◌∷◌, ◌++◌, ◌==◌, ◌!=◌, if◌then◌else◌, Bool-cases, inl,
  inr, arith,
}
use mathlib.Core.List.{append_assoc}
use sysx.Drivers.Pci.{Config, read_byte, read_word, read_dword}
use sysx.Drivers.Pci.Scan.{
  PciDevice, Tree, add_geo, add_id, vendor, is_multifunction, describe, is_bridge, scan_func,
  scan_funcs, scan_dev, scan_devs, scan_bus, init,
}

-- The tree with more nodes below both of its roots.
abbrev pub with_found : List PciDevice → Tree → Tree
with_found ds t = record t { geo = ds ++ t.geo; ids = ds ++ t.ids }

opposite : (n : ℕ) (b : Bool) → (n == 0xffff) ≡ b → (n != 0xffff) ≡ not b
opposite n b e = ground arith

with_found-append :
    (ds es : List PciDevice) (t : Tree) → with_found ds (with_found es t) ≡ with_found (ds ++ es) t
with_found-append ds es t = rw (append_assoc ds es t.geo, append_assoc ds es t.ids) refl

module _ {S : Type 0} (c : Config S) (s : S) (bus : ℕ) where
  -- The node that the registers of a function call for: the vendor at 0, the device at 2, the subclass
  -- at 0x0a and the class at 0x0b.
  abbrev pub registers : ℕ → ℕ → PciDevice
  registers dev func = record {
    vid = read_word c bus dev func s 0;
    pid = read_word c bus dev func s 2;
    class = read_byte c bus dev func s 0x0b;
    subclass = read_byte c bus dev func s 0x0a;
    bus = bus;
    dev = dev;
    func = func;
  }

  -- Bit 7 of the header type at 0x0e: the device has more functions than 0.
  unfoldable pub has_more : ℕ → Bool
  has_more dev = leb 128 (read_byte c bus dev 0 s 0x0e)

  -- A bridge to another bus: class 6, subclass 4 or 9.
  abbrev pub leads_on : ℕ → ℕ → Bool
  leads_on dev func =
      read_byte c bus dev func s 0x0b == 6
      && (read_byte c bus dev func s 0x0a == 4 || read_byte c bus dev func s 0x0a == 9)

  describe-registers :
      (dev func : ℕ)
      → ((offset : ℕ) → c.read_aligned s bus dev func offset < 0x1_0000_0000)
      → describe c s bus dev func ≡ registers dev func
  unfolding describe read_word read_dword read_byte
  describe-registers dev func words =
      let low = words 0 in
      let high = words 8 in
      let vid : c.read_aligned s bus dev func 0 % 0x1_0000
          ≡ c.read_aligned s bus dev func 0 / 1 % 0x1_0000 =
        omega arith in
      let pid : c.read_aligned s bus dev func 0 / 0x1_0000
          ≡ c.read_aligned s bus dev func 0 / 0x1_0000 % 0x1_0000 =
        omega arith in
      let class : c.read_aligned s bus dev func 8 / 0x1_0000 % 0x1_0000 / 256
          ≡ c.read_aligned s bus dev func 8 / 0x100_0000 % 256 =
        omega arith in
      let subclass : c.read_aligned s bus dev func 8 / 0x1_0000 % 0x1_0000 % 256
          ≡ c.read_aligned s bus dev func 8 / 0x1_0000 % 256 =
        omega arith in
      λ i. record {
        vid = vid i;
        pid = pid i;
        class = class i;
        subclass = subclass i;
        bus = bus;
        dev = dev;
        func = func;
      }

  is_multifunction-has_more : (dev : ℕ) → is_multifunction c s bus dev 0 ≡ has_more dev
  unfolding is_multifunction has_more read_byte
  is_multifunction-has_more dev = ground arith

  is_bridge-registers : (dev func : ℕ) → is_bridge c s (registers dev func) ≡ leads_on dev func
  unfolding is_bridge
  is_bridge-registers dev func = refl

  -- A function is there if it has a vendor.
  unfoldable pub found_func : ℕ → ℕ → List PciDevice
  found_func dev func = if (registers dev func).vid == 0xffff then [] else registers dev func ∷ []

  -- The last of the functions first, from `func` on.
  unfoldable pub found_funcs : ℕ → ℕ → ℕ → List PciDevice
  unfolding found_func
  found_funcs dev zero func = []
  found_funcs dev (suc left) func = found_funcs dev left (func + 1) ++ found_func dev func

  -- A device is there if its function 0 is; its other functions are looked at if that says so.
  unfoldable pub found_dev : ℕ → List PciDevice
  unfolding found_funcs
  found_dev dev =
      if (registers dev 0).vid == 0xffff
      then []
      else (if has_more dev then found_funcs dev 7 1 else []) ++ found_func dev 0

  unfoldable pub found_devs : ℕ → ℕ → List PciDevice
  unfolding found_dev
  found_devs zero dev = []
  found_devs (suc left) dev = found_devs left (dev + 1) ++ found_dev dev

  module _ (scan : ℕ → Tree → Option Tree)
      (words : (dev func offset : ℕ) → c.read_aligned s bus dev func offset < 0x1_0000_0000)
      (no_bridge : (dev func : ℕ) → leads_on dev func ≡ false) where
    -- `pci_scan_func` for a function with the node `d`.
    abbrev scan_node : PciDevice → ℕ → ℕ → Tree → Option (Bool × Tree)
    scan_node d dev func t =
        if d.vid == 0xffff
        then some (false, t)
        else if is_bridge c s d
        then elim (scan (read_byte c bus dev func s 0x19) (add_id d (add_geo d t))) [
          | none ↦ none
          | some t' ↦ some (true, t')
        ]
        else some (true, add_id d (add_geo d t))

    scan_func-registers :
        (dev func : ℕ) (t : Tree)
        → scan_func c s scan bus dev func t ≡ scan_node (registers dev func) dev func t
    unfolding scan_func
    scan_func-registers dev func t =
        subst (λ d. scan_func c s scan bus dev func t ≡ scan_node d dev func t)
          (describe-registers dev func (λ offset. words dev func offset)) refl

    scan_func-found :
        (dev func : ℕ) (t : Tree)
        → t.answers ≡ []
        → scan_func c s scan bus dev func t
          ≡ some (((registers dev func).vid != 0xffff), with_found (found_func dev func) t)
    unfolding found_func add_geo add_id
    scan_func-found dev func t free =
        let known = scan_func-registers dev func t in
        let end = is_bridge-registers dev func ∙ no_bridge dev func in
        elim (Bool-cases ((registers dev func).vid == 0xffff)) [
          | inl lacks ↦ rw (known, lacks, opposite _ true lacks) refl
          | inr there ↦ rw (known, there, end, free, opposite _ false there) refl
        ]

    scan_funcs-found :
        (dev left func : ℕ) (t : Tree)
        → t.answers ≡ []
        → scan_funcs c s scan bus dev left func t ≡ some (with_found (found_funcs dev left func) t)
    unfolding scan_funcs found_funcs
    scan_funcs-found dev zero func t free = refl
    scan_funcs-found dev (suc left) func t free =
        rw (scan_funcs, scan_func-found dev func t free)
          (scan_funcs-found dev left (func + 1) (with_found (found_func dev func) t) free
            ∙ ap some (with_found-append (found_funcs dev left (func + 1)) (found_func dev func) t))

    scan_dev-found :
        (dev : ℕ) (t : Tree)
        → t.answers ≡ []
        → scan_dev c s scan bus dev t ≡ some (with_found (found_dev dev) t)
    unfolding scan_dev found_dev
    scan_dev-found dev t free =
        let several = is_multifunction-has_more dev in
        elim (Bool-cases ((registers dev 0).vid == 0xffff)) [
          | inl lacks ↦
              rw (scan_dev, scan_func-found dev 0 t free, opposite _ true lacks, lacks) refl
          | inr there ↦ elim (Bool-cases (has_more dev)) [
            | inl more ↦
                rw
                  (
                    scan_dev,
                    scan_func-found dev 0 t free,
                    opposite _ false there,
                    there,
                    several,
                    more,
                  )
                  (scan_funcs-found dev 7 1 (with_found (registers dev 0 ∷ []) t) free
                    ∙ ap some (with_found-append (found_funcs dev 7 1) (registers dev 0 ∷ []) t))
            | inr single ↦
                rw
                  (
                    scan_dev,
                    scan_func-found dev 0 t free,
                    opposite _ false there,
                    there,
                    several,
                    single,
                  )
                  refl
          ]
        ]

    scan_devs-found :
        (left dev : ℕ) (t : Tree)
        → t.answers ≡ []
        → scan_devs c s scan bus left dev t ≡ some (with_found (found_devs left dev) t)
    unfolding scan_devs found_devs
    scan_devs-found zero dev t free = refl
    scan_devs-found (suc left) dev t free =
        rw (scan_devs, scan_dev-found dev t free)
          (scan_devs-found left (dev + 1) (with_found (found_dev dev) t) free
            ∙ ap some (with_found-append (found_devs left (dev + 1)) (found_dev dev) t))

  -- If registers have 32 bits, no class and subclass on the bus is that of a bridge (6, with 4 or 9), and
  -- all allocations succeed: the scan of the bus ends, and adds to both roots a node for function 0 of
  -- each of the 32 devices that has a vendor, and for each further function that has one of a device
  -- whose function 0 has one and has bit 7 of the header type at 0x0e set. Each node has the vendor and
  -- device of the words at 0 and 2, the class of the byte at 0x0b and the subclass of that at 0x0a; the
  -- last one comes first.
  pub scan_bus-found :
      (fuel : ℕ) (t : Tree)
      → ((dev func offset : ℕ) → c.read_aligned s bus dev func offset < 0x1_0000_0000)
      → ((dev func : ℕ) → leads_on dev func ≡ false)
      → t.answers ≡ []
      → scan_bus c s (suc fuel) bus t ≡ some (with_found (found_devs 32 0) t)
  unfolding scan_bus
  scan_bus-found fuel t words no_bridge free =
      scan_devs-found (scan_bus c s fuel) words no_bridge 32 0 t free

module _ {S : Type 0} (c : Config S) (s : S) where
  -- If function 0 of device 0 on bus 0 has a vendor and its header says that there are more functions,
  -- which is how the code tells several host controllers, `pci_init` ends with the tree as it was.
  pub init-multiple :
      (fuel : ℕ) (t : Tree)
      → is_multifunction c s 0 0 0 ≡ true
      → vendor c s 0 0 0 ≢ 0xffff
      → init c s fuel t ≡ some t
  unfolding init
  init-multiple fuel t several there =
      let first : (vendor c s 0 0 0 != 0xffff) ≡ true = ground arith in
      rw (init, several, first) refl
