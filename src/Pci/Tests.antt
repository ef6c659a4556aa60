-- ===== src/Pci/Tests.antt =====
-- The theorem on the probe at a bus where every address has a device.
use shawn_os.Prelude.{ℕ, ◌≡◌, ok, [], arith, replicate, length-replicate}
use shawn_os.Pci.{Pci, Probe, get_device_class_id, config_read_word, probe}
use shawn_os.Pci.Laws.{IsValid, ClassesKnown, no_device, probe-IsValid}

abbrev no_devices : Pci
no_devices = record { devices = replicate 16 no_device; devices_size = 0 }

no_devices-IsValid : IsValid no_devices
no_devices-IsValid = record {
  places = length-replicate 16 no_device;
  capped = omega arith;
  present = λ k h. absurd (omega arith);
}

-- Every read of the bus gives 0x06378086: class 6, a bridge.
abbrev bridges : ℕ → ℕ
bridges address = 0x0637_8086

bridges_known : ClassesKnown bridges
unfolding get_device_class_id config_read_word
bridges_known bus slot function real = omega arith

probe-IsValid_example :
    (p' : Probe) × (probe bridges (record { lines = []; pci = no_devices }) ≡ ok p')
    × IsValid p'.pci
probe-IsValid_example =
    probe-IsValid bridges bridges_known (record { lines = []; pci = no_devices }) no_devices-IsValid
