-- ===== src/Pci/Scan.antt =====
-- kernel/drivers/pci.c: the scan comes to its end, and what it finds.
use yuzuos.Base.{
  ℕ, zero, suc, ◌+◌, ◌<◌, ◌≤◌, ◌≡◌, refl, arith, true, false, Option, some, ◌==◌, bit_and, List, [],
  Bool-cases, inl, inr, ==_iff, sym,
}
use mathlib.Core.Path.{subst}
use yuzuos.Pci.{
  PciDevice, pci_addr_get, vendor_id_get, secondary_bus_get, hdr_type_get, device_set, is_bridge,
  check_func, scan_funcs, scan_devices, bus_scan, scan_hosts, pci_init, invalid_vendor_id,
}
use yuzuos.Pci.Listed.{
  AreDevices, Ends, Lists, IsPlain, has_addr, device_set-AreDevices, device_set-keeps,
  device_set-lists, bind-Ends, bind-Lists, bind-Lists_later,
}

module _ (config : ℕ → ℕ) where
  -- A bridge leads to a bus of a larger number.
  abbrev pub LeadsUp : Type 0
  LeadsUp =
      (bus device func : ℕ)
      → bus < 256
      → device < 32
      → func < 8
      → is_bridge config (pci_addr_get bus device func) ≡ true
      → bus < secondary_bus_get config (pci_addr_get bus device func)

  secondary_bus_get-small : (addr : ℕ) → secondary_bus_get config addr < 256
  unfolding secondary_bus_get
  secondary_bus_get-small addr = omega arith

  module _ (up : LeadsUp) (scan : ℕ → List PciDevice → Option (List PciDevice)) (bus : ℕ)
      (small : bus < 256)
      (ends : (b : ℕ) (found : List PciDevice)
        → bus < b
        → b < 256
        → AreDevices config found
        → Ends config found (scan b found)) where
    check_func-Ends :
        (device func : ℕ) (found : List PciDevice)
        → device < 32
        → func < 8
        → AreDevices config found
        → Ends config found (check_func config scan bus device func found)
    unfolding check_func
    check_func-Ends device func found h h' a =
        let next = device_set config bus device func found in
        let b = device_set-AreDevices config bus device func found a in
        elim (Bool-cases (is_bridge config (pci_addr_get bus device func))) [
          | inl bridge ↦
              let (last, e, a', keeps) =
                ends _ next (up bus device func small h h' bridge) (secondary_bus_get-small _) b in
              rw bridge
                (last, e, a', λ x p. keeps x (device_set-keeps config bus device func x found p))
          | inr plain ↦
              rw plain (next, refl, b, λ x p. device_set-keeps config bus device func x found p)
        ]

    scan_funcs-Ends :
        (device left func : ℕ) (found : List PciDevice)
        → device < 32
        → left + func < 8
        → AreDevices config found
        → Ends config found (scan_funcs config scan bus device left func found)
    unfolding scan_funcs
    scan_funcs-Ends device zero func found h h' a = (found, refl, a, λ x p. p)
    scan_funcs-Ends device (suc left) func found h h' a =
        bind-Ends config found _ _ (check_func-Ends device func found h (omega arith) a)
          (λ next b. scan_funcs-Ends device left (func + 1) next h (omega arith) b)

    scan_devices-Ends :
        (left device func : ℕ) (found : List PciDevice)
        → left + device < 33
        → AreDevices config found
        → Ends config found (scan_devices config scan bus left device func found)
    unfolding scan_devices
    scan_devices-Ends zero device func found h a = (found, refl, a, λ x p. p)
    scan_devices-Ends (suc left) device func found h a =
        elim (Bool-cases (bit_and (hdr_type_get config (pci_addr_get bus device func)) 0x80 == 0)) [
          | inl single ↦ rw single (
              bind-Ends config found _ _
                (check_func-Ends device 0 found (omega arith) (omega arith) a)
                (λ next b. scan_devices-Ends left (device + 1) func next (omega arith) b))
          | inr several ↦ rw several (
              bind-Ends config found _ _
                (scan_funcs-Ends device 7 0 found (omega arith) (omega arith) a)
                (λ next b. scan_devices-Ends left (device + 1) 7 next (omega arith) b))
        ]

    check_func-Lists :
        (device func : ℕ) (found : List PciDevice)
        → IsPlain config (pci_addr_get bus device func)
        → AreDevices config found
        → Lists config (pci_addr_get bus device func) (check_func config scan bus device func found)
    unfolding check_func
    check_func-Lists device func found plain a =
        let no_bridge : is_bridge config (pci_addr_get bus device func) ≡ false =
          rw (plain.1) refl in
        rw no_bridge (
          device_set config bus device func found,
          refl,
          device_set-AreDevices config bus device func found a,
          device_set-lists config bus device func found plain,
        )

    scan_funcs-Lists :
        (device left : ℕ) (found : List PciDevice)
        → device < 32
        → left < 7
        → IsPlain config (pci_addr_get bus device 0)
        → AreDevices config found
        → Lists config
            (pci_addr_get bus device 0)
            (scan_funcs config scan bus device (suc left) 0 found)
    unfolding scan_funcs
    scan_funcs-Lists device left found h h' plain a =
        bind-Lists config _ _ _ (check_func-Lists device 0 found plain a)
          (λ next b. scan_funcs-Ends device left 1 next h (omega arith) b)

    -- The device that comes next.
    scan_devices-next :
        (left device func : ℕ) (found : List PciDevice)
        → suc left + device < 33
        → IsPlain config (pci_addr_get bus device 0)
        → AreDevices config found
        → Lists config
            (pci_addr_get bus device 0)
            (scan_devices config scan bus (suc left) device func found)
    unfolding scan_devices
    scan_devices-next left device func found h plain a =
        elim (Bool-cases (bit_and (hdr_type_get config (pci_addr_get bus device func)) 0x80 == 0)) [
          | inl single ↦ rw single (
              bind-Lists config _ _ _ (check_func-Lists device 0 found plain a)
                (λ next b. scan_devices-Ends left (device + 1) func next (omega arith) b))
          | inr several ↦ rw several (
              bind-Lists config _ _ _
                (scan_funcs-Lists device 6 found (omega arith) (omega arith) plain a)
                (λ next b. scan_devices-Ends left (device + 1) 7 next (omega arith) b))
        ]

    scan_devices-Lists :
        (left device func d : ℕ) (found : List PciDevice)
        → left + device < 33
        → device ≤ d
        → d < left + device
        → IsPlain config (pci_addr_get bus d 0)
        → AreDevices config found
        → Lists config (pci_addr_get bus d 0) (scan_devices config scan bus left device func found)
    unfolding scan_devices
    scan_devices-Lists zero device func d found h from to plain a = absurd (omega arith)
    scan_devices-Lists (suc left) device func d found h from to plain a =
        let multi = bit_and (hdr_type_get config (pci_addr_get bus device func)) 0x80 == 0 in
        elim (Bool-cases (device == d)) [
          | inl here ↦
              let at : device ≡ d = (==_iff device d).0 here in
              subst
                (λ (x : ℕ).
                  Lists config (pci_addr_get bus x 0)
                    (scan_devices config scan bus (suc left) device func found))
                at
                (scan_devices-next left device func found h
                  (subst (λ (x : ℕ). IsPlain config (pci_addr_get bus x 0)) (sym at) plain) a)
          | inr other ↦
              let later : device < d = ground arith in
              elim (Bool-cases multi) [
                | inl single ↦ rw single (
                    bind-Lists_later config _ found _ _
                      (check_func-Ends device 0 found (omega arith) (omega arith) a)
                      (λ next b.
                        scan_devices-Lists left (device + 1) func d next (omega arith) (omega arith)
                          (omega arith) plain b))
                | inr several ↦ rw several (
                    bind-Lists_later config _ found _ _
                      (scan_funcs-Ends device 7 0 found (omega arith) (omega arith) a)
                      (λ next b.
                        scan_devices-Lists left (device + 1) 7 d next (omega arith) (omega arith)
                          (omega arith) plain b))
              ]
        ]

  bus_scan-Ends :
      (fuel bus : ℕ) (found : List PciDevice)
      → LeadsUp
      → bus < 256
      → 256 ≤ bus + fuel
      → AreDevices config found
      → Ends config found (bus_scan config fuel bus found)
  unfolding bus_scan
  bus_scan-Ends zero bus found up small enough a = absurd (omega arith)
  bus_scan-Ends (suc fuel) bus found up small enough a =
      scan_devices-Ends up (bus_scan config fuel) bus small
        (λ b next more small' c. bus_scan-Ends fuel b next up small' (omega arith) c) 32 0 0 found
        (omega arith) a

  scan_hosts-Ends :
      (fuel left func : ℕ) (found : List PciDevice)
      → LeadsUp
      → left + func < 256
      → 256 ≤ fuel
      → AreDevices config found
      → Ends config found (scan_hosts config fuel left func found)
  unfolding scan_hosts
  scan_hosts-Ends fuel zero func found up h enough a = (found, refl, a, λ x p. p)
  scan_hosts-Ends fuel (suc left) func found up h enough a =
      elim (Bool-cases (vendor_id_get config (pci_addr_get 0 0 func) == invalid_vendor_id)) [
        | inl missing ↦ rw missing (found, refl, a, λ x p. p)
        | inr there ↦ rw there (
            bind-Ends config found _ _
              (bus_scan-Ends fuel func found up (omega arith) (omega arith) a)
              (λ next b. scan_hosts-Ends fuel left (func + 1) next up (omega arith) enough b))
      ]

  bus_scan-Lists :
      (fuel d : ℕ)
      → LeadsUp
      → 256 ≤ fuel
      → d < 32
      → IsPlain config (pci_addr_get 0 d 0)
      → Lists config (pci_addr_get 0 d 0) (bus_scan config fuel 0 [])
  unfolding bus_scan
  bus_scan-Lists zero d up enough h plain = absurd (omega arith)
  bus_scan-Lists (suc fuel) d up enough h plain =
      scan_devices-Lists up (bus_scan config fuel) 0 (omega arith)
        (λ b next more small c. bus_scan-Ends fuel b next up small (omega arith) c) 32 0 0 d []
        (omega arith) (omega arith) (omega arith) plain tt

  -- Where each bridge leads to a bus of a larger number than its own, and a host controller is there,
  -- the scan of `pci_init` comes to its end, nested at most 256 deep. It lists the function 0 of each
  -- device of the bus 0 that is there and no bridge; and each device in the list is a function that
  -- is there and no bridge, with the vendor, the number and the first base address of its entry.
  pub pci_init_lem :
      (fuel d : ℕ)
      → LeadsUp
      → 256 ≤ fuel
      → d < 32
      → (vendor_id_get config (pci_addr_get 0 0 0) == invalid_vendor_id) ≡ false
      → IsPlain config (pci_addr_get 0 d 0)
      → (found : List PciDevice) × (pci_init config fuel ≡ some found)
        × AreDevices config found
        × (has_addr (pci_addr_get 0 d 0) found ≡ true)
  unfolding pci_init scan_hosts
  pci_init_lem fuel d up enough h host plain =
      elim (Bool-cases (bit_and (hdr_type_get config (pci_addr_get 0 0 0)) 0x80 == 0)) [
        | inl single ↦ rw single (bus_scan-Lists fuel d up enough h plain)
        | inr several ↦
            rw (several, host)
              (bind-Lists config _ _ _ (bus_scan-Lists fuel d up enough h plain)
                (λ next b. scan_hosts-Ends fuel 7 1 next up (omega arith) enough b))
      ]
