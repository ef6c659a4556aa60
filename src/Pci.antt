-- ===== src/Pci.antt =====
-- kernel/drivers/pci/pci.c: the devices on the PCI bus.
-- `config` is the bus: the value that the data port gives once an address is written to the address
-- port.
pub mod Laws
mod Tests
use shawn_os.Prelude.{
  ℕ, zero, suc, ◌+◌, ◌*◌, ◌/◌, ◌%◌, ◌^◌, Bool, true, false, List, ltb, ◌==◌, if◌then◌else◌, set,
  bit_and, bit_or, [], ◌∷◌, codes, get_or, Outcome, ok, abort, ◌>>=◌,
}
use shawn_os.Printf.{Arg, int32, text}
use shawn_os.Kernel.{u32, add32}

pub record Device : Type 0 where
  pub vendor : ℕ
  pub device : ℕ
  pub func : ℕ

pub record Pci : Type 0 where
  pub devices : List Device
  pub devices_size : ℕ

-- A line that is printed: its format and arguments.
abbrev pub Line : Type 0
Line = List ℕ × List Arg

abbrev pub limit_line : Line
limit_line = (codes "[pci] not adding above device... limit reached\n", [])

abbrev pub device_line : ℕ → ℕ → List ℕ → Line
device_line vendor_id device_id name =
    (codes "[pci] %x:%x - %s\n", int32 vendor_id ∷ int32 device_id ∷ text name ∷ [])

-- What the probe changes.
pub record Probe : Type 0 where
  pub lines : List Line
  pub pci : Pci

-- `PCI_CLASS_IDS`
abbrev pub class_ids : List (List ℕ)
class_ids =
    codes "no class specification"
    ∷ codes "Mass Storage Controller"
    ∷ codes "Network Controller"
    ∷ codes "Display Controller"
    ∷ codes "Multimedia Device"
    ∷ codes "Memory Controller"
    ∷ codes "Bridge Device"
    ∷ codes "Simple Communication Controller"
    ∷ codes "Base System Peripheral"
    ∷ codes "Input Device"
    ∷ codes "Docking Station"
    ∷ codes "Processor"
    ∷ codes "Serial Bus Controller"
    ∷ codes "Wireless Controller"
    ∷ codes "Intelligent I/O Controller"
    ∷ codes "Satellite Communication Controller"
    ∷ codes "Encryption/Decryption Controller"
    ∷ codes "Data Acquisition and Signal Processing Controller"
    ∷ []

-- The read of `PCI_CLASS_IDS[class_id]`; behind the end of the table it has no value.
unfoldable pub class_name : ℕ → Outcome (List ℕ)
class_name class_id = if ltb class_id 18 then ok (get_or class_ids class_id []) else abort

unfoldable pub config_address : ℕ → ℕ → ℕ → ℕ → ℕ
config_address bus slot func offset =
    bit_or
      (bit_or (bit_or (bit_or (u32 (bus * 2 ^ 16)) (u32 (slot * 2 ^ 11))) (u32 (func * 2 ^ 8)))
        (bit_and offset 0xfc))
      0x8000_0000

module _ (config : ℕ → ℕ) where
  unfoldable pub config_read_word : ℕ → ℕ → ℕ → ℕ → ℕ
  config_read_word bus slot func offset =
      config (config_address bus slot func offset) / 2 ^ (bit_and offset 2 * 8) % 2 ^ 16

  unfoldable pub get_vendor_id : ℕ → ℕ → ℕ → ℕ
  get_vendor_id bus slot func = config_read_word bus slot func 0

  unfoldable pub get_device_id : ℕ → ℕ → ℕ → ℕ
  get_device_id bus slot func = config_read_word bus slot func 2

  unfoldable pub get_device_class_id : ℕ → ℕ → ℕ → ℕ
  get_device_class_id bus slot func = config_read_word bus slot func 0xa / 2 ^ 8

  unfoldable pub get_device_subclass_id : ℕ → ℕ → ℕ → ℕ
  get_device_subclass_id bus slot func = config_read_word bus slot func 0xa % 2 ^ 8

  -- The body of the loops: whether the probe returns, the lines that were printed, the last one
  -- first, and the table.
  unfoldable pub probe_function : ℕ → ℕ → ℕ → Probe → Outcome (Bool × Probe)
  probe_function bus slot function p =
      let vendor_id = get_vendor_id bus slot function in
      let device_id = get_device_id bus slot function in
      if ltb 15 p.pci.devices_size
      then ok (true, record p { lines = limit_line ∷ p.lines })
      else if vendor_id == 0xffff
      then ok (false, p)
      else (class_name (get_device_class_id bus slot function) >>= λ name. ok (
        false,
        record {
          lines = device_line vendor_id device_id name ∷ p.lines;
          pci = record {
            devices =
                set p.pci.devices p.pci.devices_size
                  (record { vendor = vendor_id; device = device_id; func = function });
            devices_size = add32 p.pci.devices_size 1;
          };
        },
      ))

  unfoldable pub probe_functions : ℕ → ℕ → ℕ → ℕ → Probe → Outcome (Bool × Probe)
  probe_functions zero bus slot function p = ok (false, p)
  probe_functions (suc left) bus slot function p =
      probe_function bus slot function p >>= λ (done, p').
      let rest = probe_functions left bus slot (function + 1) p' in
      if done then ok (true, p') else rest

  unfoldable pub probe_slots : ℕ → ℕ → ℕ → Probe → Outcome (Bool × Probe)
  probe_slots zero bus slot p = ok (false, p)
  probe_slots (suc left) bus slot p = probe_functions 8 bus slot 0 p >>= λ (done, p').
      let rest = probe_slots left bus (slot + 1) p' in if done then ok (true, p') else rest

  unfoldable pub probe_buses : ℕ → ℕ → Probe → Outcome (Bool × Probe)
  probe_buses zero bus p = ok (false, p)
  probe_buses (suc left) bus p = probe_slots 32 bus 0 p >>= λ (done, p').
      let rest = probe_buses left (bus + 1) p' in if done then ok (true, p') else rest

  unfoldable pub probe : Probe → Outcome Probe
  probe p = probe_buses 256 0 p >>= λ (done, p'). ok p'
