-- ===== src/Pci/Laws.antt =====
-- The probe and the table of devices.
use shawn_os.Prelude.{
  ℕ, zero, suc, ◌+◌, ◌%◌, ◌^◌, ◌≤◌, ◌<◌, ◌≡◌, ◌≢◌, ap, sym, ◌∙◌, arith, ltb, ◌==◌, get_or, set,
  length, length-set, get_or-set_self, get_or-set_ne, Bool-cases, inl, inr, refl, [], ◌∷◌, Bool,
  true, false, if◌then◌else◌, List, Outcome, ok, ◌>>=◌,
}
use native.Mathlib.Decide.{ℕ_discrete}
use shawn_os.Kernel.{add32}
use shawn_os.Pci.{
  Device, Pci, Probe, class_ids, class_name, limit_line, device_line, get_device_id, get_vendor_id,
  get_device_class_id, probe_function, probe_functions, probe_slots, probe_buses, probe,
}

abbrev pub no_device : Device
no_device = record { vendor = 0; device = 0; func = 0 }

-- Sixteen places, of which those that are counted hold devices that answered.
pub record IsValid (p : Pci) : Type 0 where
  pub places : length p.devices ≡ 16
  pub capped : p.devices_size ≤ 16
  pub present : (k : ℕ) → k < p.devices_size → (get_or p.devices k no_device).vendor ≢ 0xffff

module _ (config : ℕ → ℕ) where
  added :
      (d : Device) (p : Pci)
      → IsValid p
      → p.devices_size < 16
      → d.vendor ≢ 0xffff
      → IsValid (record p {
        devices = set p.devices p.devices_size d;
        devices_size = (p.devices_size + 1) % 2 ^ 32;
      })
  added d p v room real = record {
    places = length-set p.devices p.devices_size d ∙ v.places;
    capped = omega (arith, v.capped);
    present = λ k h. elim (ℕ_discrete p.devices_size k) [
      | yes e ↦
          let here : (get_or (set p.devices p.devices_size d) k no_device).vendor ≡ d.vendor =
            ap (λ (n : ℕ). (get_or (set p.devices p.devices_size d) n no_device).vendor) (sym e)
            ∙ ap (λ (x : Device). x.vendor)
                (get_or-set_self p.devices p.devices_size d no_device (omega (arith, v.places))) in
          omega (arith, here, real)
      | no ne ↦
          let other : (get_or (set p.devices p.devices_size d) k no_device).vendor
              ≡ (get_or p.devices k no_device).vendor =
            ap (λ (x : Device). x.vendor)
              (get_or-set_ne p.devices p.devices_size k d no_device ne) in
          omega (arith, other, v.present k (omega arith))
    ];
  }

  -- Every device that answers is of a class that the table of class names has.
  abbrev pub ClassesKnown : Type 0
  ClassesKnown =
      (bus slot function : ℕ)
      → get_vendor_id config bus slot function ≢ 0xffff
      → get_device_class_id config bus slot function < 18

  -- A part of the probe returns and leaves a valid table.
  abbrev Goes : Outcome (Bool × Probe) → Type 0
  Goes r = (done : Bool) × (p : Probe) × (r ≡ ok (done, p)) × IsValid p.pci

  -- What the loops do with the result of their body.
  rest-Goes :
      {r : Outcome (Bool × Probe)}
      → Goes r
      → (rest : Probe → Outcome (Bool × Probe)) → ((p : Probe) → IsValid p.pci → Goes (rest p))
      → Goes (r >>= λ (done, p'). if done then ok (true, p') else rest p')
  rest-Goes (true, p, e, v) rest next = (true, p, rw e refl, v)
  rest-Goes (false, p, e, v) rest next = let (done, q, f, w) = next p v in (done, q, rw e f, w)

  module _ (known : ClassesKnown) where
    class_name_known : (c : ℕ) → c < 18 → (name : List ℕ) × (class_name c ≡ ok name)
    unfolding class_name
    class_name_known c h =
        let below : ltb c 18 ≡ true = ground arith in (get_or class_ids c [], rw below refl)

    probe_function-Goes :
        (bus slot function : ℕ) (p : Probe)
        → IsValid p.pci
        → Goes (probe_function config bus slot function p)
    unfolding probe_function
    probe_function-Goes bus slot function p v = elim (Bool-cases (ltb 15 p.pci.devices_size)) [
      | inl e ↦ (true, record p { lines = limit_line ∷ p.lines }, rw e refl, v)
      | inr e ↦ elim (Bool-cases (get_vendor_id config bus slot function == 0xffff)) [
        | inl f ↦ (false, p, rw (e, f) refl, v)
        | inr f ↦
            let (name, n) =
              class_name_known (get_device_class_id config bus slot function)
                (known bus slot function (ground (arith, f))) in
            (
              false,
              record {
                lines =
                    device_line (get_vendor_id config bus slot function)
                      (get_device_id config bus slot function) name
                    ∷ p.lines;
                pci = record {
                  devices = set p.pci.devices p.pci.devices_size (record {
                    vendor = get_vendor_id config bus slot function;
                    device = get_device_id config bus slot function;
                    func = function;
                  });
                  devices_size = add32 p.pci.devices_size 1;
                };
              },
              rw (e, f, n) refl,
              added _ p.pci v (ground (arith, e)) (ground (arith, f)),
            )
      ]
    ]

    probe_functions-Goes :
        (left bus slot function : ℕ) (p : Probe)
        → IsValid p.pci
        → Goes (probe_functions config left bus slot function p)
    unfolding probe_functions
    probe_functions-Goes zero bus slot function p v = (false, p, refl, v)
    probe_functions-Goes (suc left) bus slot function p v =
        rest-Goes (probe_function-Goes bus slot function p v)
          (probe_functions config left bus slot (function + 1))
          (λ q w. probe_functions-Goes left bus slot (function + 1) q w)

    probe_slots-Goes :
        (left bus slot : ℕ) (p : Probe) → IsValid p.pci → Goes (probe_slots config left bus slot p)
    unfolding probe_slots
    probe_slots-Goes zero bus slot p v = (false, p, refl, v)
    probe_slots-Goes (suc left) bus slot p v =
        rest-Goes (probe_functions-Goes 8 bus slot 0 p v) (probe_slots config left bus (slot + 1))
          (λ q w. probe_slots-Goes left bus (slot + 1) q w)

    probe_buses-Goes :
        (left bus : ℕ) (p : Probe) → IsValid p.pci → Goes (probe_buses config left bus p)
    unfolding probe_buses
    probe_buses-Goes zero bus p v = (false, p, refl, v)
    probe_buses-Goes (suc left) bus p v =
        rest-Goes (probe_slots-Goes 32 bus 0 p v) (probe_buses config left (bus + 1))
          (λ q w. probe_buses-Goes left (bus + 1) q w)

    -- Where every device that answers has a class id below 18, from a valid table of 16 places: the
    -- probe returns, and it has never counted more devices than the table has places, and none
    -- whose vendor is the 0xffff of a missing device.
    pub probe-IsValid :
        (p : Probe) → IsValid p.pci → (p' : Probe) × (probe config p ≡ ok p') × IsValid p'.pci
    unfolding probe
    probe-IsValid p v = let (done, p', e, w) = probe_buses-Goes 256 0 p v in (p', rw e refl, w)
