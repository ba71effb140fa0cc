-- ===== src/Pci.antt =====
-- kernel/drivers/pci.c and pci.h: the scan of the bus for devices.
-- What the configuration space holds at each address that is written to its address port is a
-- parameter. The devices are a list in the order of `pci_list`.
pub mod Listed
pub mod Scan
use yuzuos.Base.{
  ℕ, zero, suc, ◌+◌, ◌*◌, ◌/◌, ◌%◌, ◌^◌, Bool, true, false, not, ◌&&◌, Option, none, some, ◌==◌,
  if◌then◌else◌, bit_and, bit_or, List, [], ◌∷◌, ◌++◌,
}
use mathlib.Core.Option.{bind}

pub record PciDevice : Type 0 where
  pub addr : ℕ
  pub device_id : ℕ
  pub vendor_id : ℕ
  pub bar0 : ℕ

-- PCI_INVALID_VENDOR_ID, PCI_CLASS_CODE_BRIDGE_DEVICE and PCI_SUBCLASS_PCI_TO_PCI_BRIDGE
abbrev pub invalid_vendor_id : ℕ
invalid_vendor_id = 0xffff

abbrev pub bridge_device : ℕ
bridge_device = 0x6

abbrev pub pci_to_pci_bridge : ℕ
pci_to_pci_bridge = 0x4

unfoldable pub pci_addr_get : (bus slot func : ℕ) → ℕ
pci_addr_get bus slot func =
    bit_or (bit_or (bit_or (bus * 2 ^ 16) (slot * 2 ^ 11)) (func * 2 ^ 8)) 0x8000_0000

module _ (config : ℕ → ℕ) where
  unfoldable pub field_read : (addr offset : ℕ) → ℕ
  field_read addr offset = config (bit_or addr (bit_and offset 0xfc))

  unfoldable pub hdr_type_get : (addr : ℕ) → ℕ
  unfolding field_read
  hdr_type_get addr = field_read addr 0xc / 2 ^ 16 % 2 ^ 8

  unfoldable pub vendor_id_get : (addr : ℕ) → ℕ
  unfolding field_read
  vendor_id_get addr = field_read addr 0 % 2 ^ 16

  unfoldable pub class_code_get : (addr : ℕ) → ℕ
  unfolding field_read
  class_code_get addr = field_read addr 8 / 2 ^ 24 % 2 ^ 8

  unfoldable pub subclass_code_get : (addr : ℕ) → ℕ
  unfolding field_read
  subclass_code_get addr = field_read addr 8 / 2 ^ 16 % 2 ^ 8

  unfoldable pub device_id_get : (addr : ℕ) → ℕ
  unfolding field_read
  device_id_get addr = field_read addr 0 / 2 ^ 16 % 2 ^ 16

  unfoldable pub secondary_bus_get : (addr : ℕ) → ℕ
  unfolding field_read
  secondary_bus_get addr = field_read addr 0x18 / 2 ^ 8 % 2 ^ 8

  unfoldable pub device_set : (bus device function : ℕ) → List PciDevice → List PciDevice
  device_set bus device function found =
      let addr = pci_addr_get bus device function in
      let d : PciDevice = record {
        addr = addr;
        device_id = device_id_get addr;
        vendor_id = vendor_id_get addr;
        bar0 = field_read addr 0x10;
      } in
      if not (vendor_id_get addr == invalid_vendor_id) && not (class_code_get addr == bridge_device)
      then found ++ d ∷ []
      else found

  -- A bridge to a further bus.
  abbrev pub is_bridge : (addr : ℕ) → Bool
  is_bridge addr =
      (class_code_get addr == bridge_device) && (subclass_code_get addr == pci_to_pci_bridge)

  -- `scan` is `pci_bus_scan`, with the fuel that is left.
  unfoldable pub check_func :
      (scan : ℕ → List PciDevice → Option (List PciDevice)) (bus device func : ℕ)
      → List PciDevice
      → Option (List PciDevice)
  unfolding device_set
  check_func scan bus device func found =
      let addr = pci_addr_get bus device func in
      let next = device_set bus device func found in
      if is_bridge addr then scan (secondary_bus_get addr) next else some next

  -- The loop over the functions of a device, `left` rounds before its end.
  unfoldable pub scan_funcs :
      (scan : ℕ → List PciDevice → Option (List PciDevice)) (bus device left func : ℕ)
      → List PciDevice
      → Option (List PciDevice)
  scan_funcs scan bus device zero func found = some found
  scan_funcs scan bus device (suc left) func found =
      bind (check_func scan bus device func found) (scan_funcs scan bus device left (func + 1))

  -- The loop over the devices of a bus; `func` is kept from one device to the next.
  unfoldable pub scan_devices :
      (scan : ℕ → List PciDevice → Option (List PciDevice)) (bus left device func : ℕ)
      → List PciDevice
      → Option (List PciDevice)
  scan_devices scan bus zero device func found = some found
  scan_devices scan bus (suc left) device func found =
      let type = hdr_type_get (pci_addr_get bus device func) in
      if not (bit_and type 0x80 == 0)
      then bind (scan_funcs scan bus device 7 0 found) (scan_devices scan bus left (device + 1) 7)
      else bind (check_func scan bus device 0 found) (scan_devices scan bus left (device + 1) func)

  unfoldable pub bus_scan : (fuel bus : ℕ) → List PciDevice → Option (List PciDevice)
  bus_scan zero bus found = none
  bus_scan (suc fuel) bus found = scan_devices (bus_scan fuel) bus 32 0 0 found

  -- The loop of `pci_init` over the functions of the host controller.
  unfoldable pub scan_hosts : (fuel left func : ℕ) → List PciDevice → Option (List PciDevice)
  scan_hosts fuel zero func found = some found
  scan_hosts fuel (suc left) func found =
      if vendor_id_get (pci_addr_get 0 0 func) == invalid_vendor_id
      then some found
      else bind (bus_scan fuel func found) (scan_hosts fuel left (func + 1))

  unfoldable pub pci_init : (fuel : ℕ) → Option (List PciDevice)
  pci_init fuel =
      if bit_and (hdr_type_get (pci_addr_get 0 0 0)) 0x80 == 0
      then bus_scan fuel 0 []
      else scan_hosts fuel 8 0 []
