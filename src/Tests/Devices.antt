-- ===== src/Tests/Devices.antt =====
-- A bus on which every function answers as the same controller.
use yuzuos.Base.{ℕ, ◌≡◌, refl, arith, true, some, List}
use yuzuos.Pci.{PciDevice, pci_addr_get, pci_init, class_code_get, vendor_id_get, field_read}
use yuzuos.Pci.Listed.{AreDevices, IsPlain, has_addr}
use yuzuos.Pci.Scan.{LeadsUp, pci_init_lem}

abbrev config : ℕ → ℕ
config a = 0x0200_8086

leads_up : LeadsUp config
unfolding class_code_get field_read
leads_up bus device func small small' small'' bridge = cc

plain : IsPlain config (pci_addr_get 0 3 0)
unfolding class_code_get vendor_id_get field_read
plain = (refl, refl)

pci_init_lem_example :
    (found : List PciDevice) × (pci_init config 256 ≡ some found)
    × AreDevices config found
    × (has_addr (pci_addr_get 0 3 0) found ≡ true)
unfolding vendor_id_get field_read
pci_init_lem_example = pci_init_lem config 256 3 leads_up (omega arith) (omega arith) refl plain
