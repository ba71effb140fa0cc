-- ===== src/Pci/Listed.antt =====
-- kernel/drivers/pci.c: the list of devices, and what a scan does to it.
use yuzuos.Base.{
  ℕ, ◌≡◌, refl, ◌∙◌, arith, Bool, true, false, ◌||◌, Option, some, ◌==◌, List, [], ◌∷◌, ◌++◌,
  Bool-cases, inl, inr,
}
use mathlib.Core.Option.{bind}
use yuzuos.Pci.{
  PciDevice, pci_addr_get, field_read, vendor_id_get, class_code_get, device_id_get, device_set,
  invalid_vendor_id, bridge_device,
}

-- Whether a function is listed.
unfoldable pub has_addr : (addr : ℕ) → List PciDevice → Bool
has_addr addr [] = false
has_addr addr (d ∷ ds) = (d.addr == addr) || has_addr addr ds

has_addr-snoc :
    (x : ℕ) (ds : List PciDevice) (d : PciDevice)
    → has_addr x (ds ++ d ∷ []) ≡ (has_addr x ds || (d.addr == x))
unfolding has_addr
has_addr-snoc x [] d = ground arith
has_addr-snoc x (e ∷ ds) d = ground (arith, has_addr-snoc x ds d)

module _ (config : ℕ → ℕ) where
  -- A function that is there, is no bridge, and has the fields of its entry.
  pub record IsDevice (d : PciDevice) : Type 0 where
    pub there : (vendor_id_get config d.addr == invalid_vendor_id) ≡ false
    pub no_bridge : (class_code_get config d.addr == bridge_device) ≡ false
    pub vendor : d.vendor_id ≡ vendor_id_get config d.addr
    pub device : d.device_id ≡ device_id_get config d.addr
    pub bar : d.bar0 ≡ field_read config d.addr 0x10

  abbrev pub AreDevices : List PciDevice → Type 0
  AreDevices [] = Unit {0}
  AreDevices (d ∷ ds) = IsDevice d × AreDevices ds

  AreDevices-snoc :
      (ds : List PciDevice) (d : PciDevice) → AreDevices ds → IsDevice d → AreDevices (ds ++ d ∷ [])
  AreDevices-snoc [] d a p = (p, tt)
  AreDevices-snoc (x ∷ xs) d a p = (a.0, AreDevices-snoc xs d a.1 p)

  -- A scan that comes to its end with more devices than there were.
  abbrev pub Ends : List PciDevice → Option (List PciDevice) → Type 0
  Ends old r =
      (found : List PciDevice) × (r ≡ some found)
      × AreDevices found
      × ((x : ℕ) → has_addr x old ≡ true → has_addr x found ≡ true)

  -- A scan that comes to its end and lists the function.
  abbrev pub Lists : (addr : ℕ) → Option (List PciDevice) → Type 0
  Lists x r =
      (found : List PciDevice) × (r ≡ some found) × AreDevices found × (has_addr x found ≡ true)

  pub device_set-AreDevices :
      (bus device func : ℕ) (found : List PciDevice)
      → AreDevices found
      → AreDevices (device_set config bus device func found)
  unfolding device_set
  device_set-AreDevices bus device func found a =
      let addr = pci_addr_get bus device func in
      elim (Bool-cases (vendor_id_get config addr == invalid_vendor_id)) [
        | inl missing ↦ rw missing a
        | inr there ↦ elim (Bool-cases (class_code_get config addr == bridge_device)) [
          | inl bridge ↦ rw (there, bridge) a
          | inr plain ↦
              rw (there, plain)
                (AreDevices-snoc found _ a (record {
                  there = there;
                  no_bridge = plain;
                  vendor = refl;
                  device = refl;
                  bar = refl;
                }))
        ]
      ]

  pub device_set-keeps :
      (bus device func x : ℕ) (found : List PciDevice)
      → has_addr x found ≡ true
      → has_addr x (device_set config bus device func found) ≡ true
  unfolding device_set
  device_set-keeps bus device func x found h =
      let addr = pci_addr_get bus device func in
      elim (Bool-cases (vendor_id_get config addr == invalid_vendor_id)) [
        | inl missing ↦ rw missing h
        | inr there ↦ elim (Bool-cases (class_code_get config addr == bridge_device)) [
          | inl bridge ↦ rw (there, bridge) h
          | inr plain ↦ rw (there, plain) (has_addr-snoc x found _ ∙ rw h refl)
        ]
      ]

  -- The entry of a function that is there and no bridge.
  abbrev pub IsPlain : (addr : ℕ) → Type 0
  IsPlain addr =
      ((vendor_id_get config addr == invalid_vendor_id) ≡ false)
      × ((class_code_get config addr == bridge_device) ≡ false)

  pub device_set-lists :
      (bus device func : ℕ) (found : List PciDevice)
      → IsPlain (pci_addr_get bus device func)
      → has_addr (pci_addr_get bus device func) (device_set config bus device func found) ≡ true
  unfolding device_set
  device_set-lists bus device func found (there, plain) =
      let addr = pci_addr_get bus device func in
      rw (there, plain) (has_addr-snoc addr found _ ∙ ground arith)

  pub bind-Ends :
      (old : List PciDevice) (r : Option (List PciDevice))
      (f : List PciDevice → Option (List PciDevice))
      → Ends old r
      → ((found : List PciDevice) → AreDevices found → Ends found (f found))
      → Ends old (bind r f)
  unfolding bind
  bind-Ends old r f (found, e, a, keeps) h =
      let (last, e', a', keeps') = h found a in rw e (last, e', a', λ x p. keeps' x (keeps x p))

  pub bind-Lists :
      (x : ℕ) (r : Option (List PciDevice)) (f : List PciDevice → Option (List PciDevice))
      → Lists x r
      → ((found : List PciDevice) → AreDevices found → Ends found (f found))
      → Lists x (bind r f)
  unfolding bind
  bind-Lists x r f (found, e, a, listed) h =
      let (last, e', a', keeps) = h found a in rw e (last, e', a', keeps x listed)

  pub bind-Lists_later :
      (x : ℕ) (old : List PciDevice) (r : Option (List PciDevice))
      (f : List PciDevice → Option (List PciDevice))
      → Ends old r
      → ((found : List PciDevice) → AreDevices found → Lists x (f found))
      → Lists x (bind r f)
  unfolding bind
  bind-Lists_later x old r f (found, e, a, keeps) h = rw e (h found a)
