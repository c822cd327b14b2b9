-- ===== src/Das/Listed.antt =====
-- Which devices list_dap_devices lists, and in which order, which is that of the port numbers.
use mathlib.Core.List.{Perm}
use tc397tools.Prelude.{
  Bool, not, ◌||◌, if◌then◌else◌, ◌<◌, ◌≢◌, ◌⊎◌, inl, inr, true, false, some, List, [], ◌∷◌, ◌++◌,
  ◌≡◌, refl, sym, subst, arith, codes, Bytes, ◌==◌, bytes_eq, bytes_eq_iff, Bool-cases, All,
}
use tc397tools.Prelude.Sort.{sort, bytes_less}
use tc397tools.Prelude.Sorted.{Sorted, sort-perm, sort-Sorted, bytes_less-IsWeakOrder}
use tc397tools.Codec.{lower}
use tc397tools.Das.Devices.{
  Usb, DapDevice, device_less, read_text_file, is_dap_device, dap_device, dap_devices_of,
  list_dap_devices,
}

-- The lexicographic order of texts.
abbrev pub LexLe : Bytes → Bytes → Type 0
LexLe [] b = Unit
LexLe (x ∷ a) [] = ⊥
LexLe (x ∷ a) (y ∷ b) = (x < y) ⊎ ((x ≡ y) × LexLe a b)

-- By bus number, then device number, then serial number.
abbrev pub Before : DapDevice → DapDevice → Type 0
Before a b =
    (a.busnum < b.busnum)
    ⊎ ((a.busnum ≡ b.busnum)
        × ((a.devnum < b.devnum) ⊎ ((a.devnum ≡ b.devnum) × LexLe a.serial b.serial)))

abbrev pub Ordered : List DapDevice → Type 0
Ordered [] = Unit
Ordered (d ∷ devices) = All (Before d) devices × Ordered devices

bytes_less-LexLe : (a b : Bytes) → bytes_less b a ≡ false → LexLe a b
unfolding bytes_less
bytes_less-LexLe [] b h = tt
bytes_less-LexLe (x ∷ a) [] h = absurd (ground arith)
bytes_less-LexLe (x ∷ a) (y ∷ b) h = elim (Bool-cases (x == y)) [
  | inl same ↦ inr (ground arith, bytes_less-LexLe a b (ground arith))
  | inr apart ↦ inl (ground arith)
]

device_less-Before : (a b : DapDevice) → device_less b a ≡ false → Before a b
unfolding device_less
device_less-Before a b h = elim (Bool-cases (b.busnum == a.busnum)) [
  | inr apart ↦ inl (ground arith)
  | inl bus ↦ elim (Bool-cases (b.devnum == a.devnum)) [
    | inr apart ↦ inr (ground arith, inl (ground arith))
    | inl device ↦
        inr (ground arith, inr (ground arith, bytes_less-LexLe a.serial b.serial (ground arith)))
  ]
]

All-Before :
    (a : DapDevice) (devices : List DapDevice)
    → All (λ b. device_less b a ≡ false) devices
    → All (Before a) devices
All-Before a [] h = tt
All-Before a (b ∷ devices) h = (device_less-Before a b h.0, All-Before a devices h.1)

Sorted-Ordered : (devices : List DapDevice) → Sorted device_less devices → Ordered devices
Sorted-Ordered [] h = tt
Sorted-Ordered (d ∷ devices) h = (All-Before d devices h.0, Sorted-Ordered devices h.1)

device_less_asym : (a b : DapDevice) → device_less a b ≡ true → device_less b a ≡ false
unfolding device_less
device_less_asym a b h = ground (arith, bytes_less-IsWeakOrder.asym a.serial b.serial)

device_less_trans :
    (a b c : DapDevice)
    → device_less b a ≡ false
    → device_less c b ≡ false
    → device_less c a ≡ false
unfolding device_less
device_less_trans a b c h k =
    ground (arith, bytes_less-IsWeakOrder.trans a.serial b.serial c.serial)

bytes_eq-false : (x y : Bytes) → bytes_eq x y ≡ false → x ≢ y
bytes_eq-false x y h e = let same = (bytes_eq_iff x y).1 e in absurd (ground arith)

bytes_eq_differ : (x y : Bytes) → x ≢ y → bytes_eq x y ≡ false
bytes_eq_differ x y h = elim (Bool-cases (bytes_eq x y)) [
  | inl same ↦ absurd (h ((bytes_eq_iff x y).0 same))
  | inr apart ↦ apart
]

-- The tests of a directory entry.
abbrev passes : Bool → Bool → Bool → Bool → Bool
passes dot up vendor no_serial =
    if dot || up then false else if not vendor then false else not no_serial

passes-true :
    (dot up vendor no_serial : Bool)
    → passes dot up vendor no_serial ≡ true
    → (dot ≡ false) × (up ≡ false) × (vendor ≡ true) × (no_serial ≡ false)
passes-true dot up vendor no_serial h = (ground arith, ground arith, ground arith, ground arith)

passes-false :
    (dot up vendor no_serial : Bool)
    → passes dot up vendor no_serial ≡ false
    → dot ≡ false
    → up ≡ false
    → vendor ≡ true
    → no_serial ≡ false
    → ⊥
passes-false dot up vendor no_serial h a b c d = ground arith

module _ {W : Type 0} (usb : Usb W) (w : W) where
  -- The first line of a file of a directory entry, without spaces at its end.
  abbrev pub attribute : Bytes → Bytes → Bytes
  attribute name file =
      read_text_file usb (codes "/sys/bus/usb/devices/" ++ (name ++ b'/' ∷ file)) w

  -- A device of the vendor with a serial number.
  abbrev pub IsDap : Bytes → Type 0
  IsDap name =
      (name ≢ codes ".")
      × (name ≢ codes "..")
      × (lower (attribute name (codes "idVendor")) ≡ codes "058b")
      × (attribute name (codes "serial") ≢ [])

  pub record IsDevice (name : Bytes) (d : DapDevice) : Type 0 where
    pub serial : d.serial ≡ attribute name (codes "serial")
    pub product : d.product ≡ attribute name (codes "product")
    pub busnum : d.busnum ≡ usb.atoi (attribute name (codes "busnum"))
    pub devnum : d.devnum ≡ usb.atoi (attribute name (codes "devnum"))

  -- The devices among the entries of a directory.
  pub data IsListing : List Bytes → List DapDevice → Type 0 where
    done : IsListing [] []
    found :
        {name : Bytes} {d : DapDevice} {names : List Bytes} {devices : List DapDevice}
        → IsDap name
        → IsDevice name d
        → IsListing names devices
        → IsListing (name ∷ names) (d ∷ devices)
    passed :
        {name : Bytes} {names : List Bytes} {devices : List DapDevice}
        → ¬ (IsDap name)
        → IsListing names devices
        → IsListing (name ∷ names) devices

  is_dap_device-IsDap : (name : Bytes) → is_dap_device usb name w ≡ true → IsDap name
  unfolding is_dap_device
  is_dap_device-IsDap name h =
      let (dot, up, vendor, serial) = passes-true _ _ _ _ h in
      (
        bytes_eq-false name _ dot,
        bytes_eq-false name _ up,
        (bytes_eq_iff _ _).0 vendor,
        bytes_eq-false _ [] serial,
      )

  is_dap_device-passed : (name : Bytes) → is_dap_device usb name w ≡ false → ¬ (IsDap name)
  unfolding is_dap_device
  is_dap_device-passed name h (dot, up, vendor, serial) =
      passes-false _ _ _ _ h (bytes_eq_differ name _ dot) (bytes_eq_differ name _ up)
        ((bytes_eq_iff _ _).1 vendor) (bytes_eq_differ _ [] serial)

  dap_devices_of-IsListing : (names : List Bytes) → IsListing names (dap_devices_of usb names w)
  unfolding dap_devices_of dap_device
  dap_devices_of-IsListing [] = done
  dap_devices_of-IsListing (name ∷ names) = elim (Bool-cases (is_dap_device usb name w)) [
    | inl here ↦ rw here (
        found (is_dap_device-IsDap name here)
          (record { serial = refl; product = refl; busnum = refl; devnum = refl })
          (dap_devices_of-IsListing names))
    | inr other ↦
        rw other (passed (is_dap_device-passed name other) (dap_devices_of-IsListing names))
  ]

  list_dap_devices_lem :
      (names : List Bytes)
      → usb.read_dir (codes "/sys/bus/usb/devices") w ≡ some names
      → list_dap_devices usb w ≡ sort device_less (dap_devices_of usb names w)
  unfolding list_dap_devices
  list_dap_devices_lem names h = rw (h, list_dap_devices) refl

  -- Where the directory can be read, the list holds a device for each entry of it that is one of the vendor with a serial
  -- number, with what read_text_file reads of its files, as often as it stands there, and no other, ordered by bus
  -- number, then device number, then serial number.
  pub list_dap_devices-Ordered :
      (names : List Bytes)
      → usb.read_dir (codes "/sys/bus/usb/devices") w ≡ some names
      → (devices : List DapDevice) × IsListing names devices
        × Perm (list_dap_devices usb w) devices
        × Ordered (list_dap_devices usb w)
  list_dap_devices-Ordered names h =
      let devices : List DapDevice = dap_devices_of usb names w in
      let sorted =
        sort-Sorted device_less (record { asym = device_less_asym; trans = device_less_trans })
          devices in
      (
        devices,
        dap_devices_of-IsListing names,
        subst (λ (listed : List DapDevice). Perm listed devices)
            (sym (list_dap_devices_lem names h)) (sort-perm device_less devices),
        subst Ordered (sym (list_dap_devices_lem names h)) (Sorted-Ordered _ sorted),
      )
