-- ===== src/Das/Devices.antt =====
-- list_dap_devices of TasGui/src/das_client.cpp. The directory and the files of /sys are a parameter, and
-- so is std::atoi.
use tc397tools.Prelude.{
  ℕ, Bool, false, not, ◌||◌, Option, none, some, List, [], ◌∷◌, ◌++◌, ltb, ◌==◌, if◌then◌else◌,
  Bytes, bytes_eq, codes,
}
use tc397tools.Prelude.Sort.{sort, bytes_less}
use tc397tools.Codec.{lower}

-- The names that readdir gives, where the directory can be opened, and the first line of a file.
pub record Usb (W : Type 0) : Type 0 where
  pub read_dir : Bytes → W → Option (List Bytes)
  pub first_line : Bytes → W → Option Bytes
  pub atoi : Bytes → ℕ

-- An int is its value plus 2 ^ 31, so that `<` is that of the int.
pub record DapDevice : Type 0 where
  pub serial : Bytes
  pub product : Bytes
  pub busnum : ℕ
  pub devnum : ℕ

abbrev is_line_end : ℕ → Bool
is_line_end c = c == b'\n' || c == b'\r' || c == b' '

-- The `while` over `s.back()`.
unfoldable pub strip_end : Bytes → Bytes
strip_end [] = []
strip_end (c ∷ text) = elim (strip_end text) [
  | [] ↦ if is_line_end c then [] else c ∷ []
  | ◌∷◌ d rest ↦ c ∷ d ∷ rest
]

-- `a.busnum != b.busnum`, and so on.
unfoldable pub device_less : DapDevice → DapDevice → Bool
device_less a b =
    if not (a.busnum == b.busnum)
    then ltb a.busnum b.busnum
    else if not (a.devnum == b.devnum)
    then ltb a.devnum b.devnum
    else bytes_less a.serial b.serial

module _ {W : Type 0} (usb : Usb W) where
  unfoldable pub read_text_file : Bytes → W → Bytes
  read_text_file path w = elim (usb.first_line path w) [ none ↦ [] | some line ↦ strip_end line ]

  abbrev device_path : Bytes → Bytes
  device_path name = codes "/sys/bus/usb/devices" ++ b'/' ∷ name

  -- The tests that `continue` for a directory entry.
  unfoldable pub is_dap_device : Bytes → W → Bool
  is_dap_device name w =
      if bytes_eq name (codes ".") || bytes_eq name (codes "..")
      then false
      else if not (
          bytes_eq (lower (read_text_file (device_path name ++ codes "/idVendor") w))
            (codes "058b"))
      then false
      else not (bytes_eq (read_text_file (device_path name ++ codes "/serial") w) [])

  unfoldable pub dap_device : Bytes → W → DapDevice
  dap_device name w = record {
    serial = read_text_file (device_path name ++ codes "/serial") w;
    product = read_text_file (device_path name ++ codes "/product") w;
    busnum = usb.atoi (read_text_file (device_path name ++ codes "/busnum") w);
    devnum = usb.atoi (read_text_file (device_path name ++ codes "/devnum") w);
  }

  unfoldable pub dap_devices_of : List Bytes → W → List DapDevice
  dap_devices_of [] w = []
  dap_devices_of (name ∷ names) w =
      let rest = dap_devices_of names w in
      if is_dap_device name w then dap_device name w ∷ rest else rest

  unfoldable pub list_dap_devices : W → List DapDevice
  list_dap_devices w = elim (usb.read_dir (codes "/sys/bus/usb/devices") w) [
    | none ↦ []
    | some names ↦ sort device_less (dap_devices_of names w)
  ]
