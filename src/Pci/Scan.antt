-- ===== src/Pci/Scan.antt =====
-- kernel/pci.cc: which device findAC97 takes.
use kernel_development_with.Prelude.{
  ℕ, zero, suc, ◌+◌, ◌≤◌, ◌<◌, ◌≡◌, ◌⊎◌, inl, inr, refl, sym, true, false, Option, none, some,
  arith, ℕ_discrete, Bool-cases,
}
use kernel_development_with.Prelude.Outcome.{Outcome, ok, panic}
use kernel_development_with.Pci.{Bus, Found, is_ac97, scan_devices, scan_buses, set_up, find_ac97}

-- No device in the range is an AC97, or the one named is the first.
abbrev DeviceIn : Bus → ℕ → ℕ → ℕ → Option (ℕ × ℕ) → Type 0
DeviceIn s bus device end none = (d : ℕ) → device ≤ d → d < end → is_ac97 s bus d ≡ false
DeviceIn s bus device end (some (b, d)) =
    (b ≡ bus)
    × (device ≤ d)
    × (d < end)
    × (is_ac97 s bus d ≡ true)
    × ((e : ℕ) → device ≤ e → e < d → is_ac97 s bus e ≡ false)

abbrev pub BusIn : Bus → ℕ → ℕ → Option (ℕ × ℕ) → Type 0
BusIn s bus end none = (b d : ℕ) → bus ≤ b → b < end → d < 32 → is_ac97 s b d ≡ false
BusIn s bus end (some (b, d)) =
    (bus ≤ b)
    × (b < end)
    × (d < 32)
    × (is_ac97 s b d ≡ true)
    × ((c e : ℕ) → bus ≤ c → e < 32 → (c < b) ⊎ ((c ≡ b) × (e < d)) → is_ac97 s c e ≡ false)

earlier_or :
    (s : Bus) (bus device : ℕ)
    → is_ac97 s bus device ≡ false
    → (d : ℕ) → device ≤ d
    → (suc device ≤ d → is_ac97 s bus d ≡ false)
    → is_ac97 s bus d ≡ false
earlier_or s bus device q d l h = elim (ℕ_discrete d device) [
  | yes e ↦ rw e q
  | no n ↦ h (omega (arith, n))
]

DeviceIn-earlier :
    (s : Bus) (bus device end : ℕ) (r : Option (ℕ × ℕ))
    → is_ac97 s bus device ≡ false
    → DeviceIn s bus (suc device) end r
    → DeviceIn s bus device end r
DeviceIn-earlier s bus device end none q h = λ d l k. earlier_or s bus device q d l (λ m. h d m k)
DeviceIn-earlier s bus device end (some (b, d)) q h =
    (h.0, omega (arith, h.1), h.2, h.3, λ e l k. earlier_or s bus device q e l (λ m. h.4 e m k))

scan_devices-DeviceIn :
    (s : Bus) (bus left device : ℕ)
    → DeviceIn s bus device (device + left) (scan_devices s bus left device)
unfolding scan_devices
scan_devices-DeviceIn s bus zero device = λ d l k. absurd (omega arith)
scan_devices-DeviceIn s bus (suc left) device = elim (Bool-cases (is_ac97 s bus device)) [
  | inl q ↦ rw q (refl, omega arith, omega arith, q, λ e l k. absurd (omega arith))
  | inr q ↦
      let e : suc device + left ≡ device + suc left = omega arith in
      rw (q, sym e)
        (DeviceIn-earlier s bus device (suc device + left) (scan_devices s bus left (suc device)) q
          (scan_devices-DeviceIn s bus left (suc device)))
]

BusIn-earlier :
    (s : Bus) (bus end : ℕ) (r : Option (ℕ × ℕ))
    → ((d : ℕ) → d < 32 → is_ac97 s bus d ≡ false)
    → BusIn s (suc bus) end r
    → BusIn s bus end r
BusIn-earlier s bus end none q h = λ b d l k i. elim (ℕ_discrete b bus) [
  | yes e ↦ rw e (q d i)
  | no n ↦ h b d (omega (arith, n)) k i
]
BusIn-earlier s bus end (some (b, d)) q h = (
  omega (arith, h.0),
  h.1,
  h.2,
  h.3,
  λ c e l i k. elim (ℕ_discrete c bus) [
    | yes p ↦ rw p (q e i)
    | no n ↦ h.4 c e (omega (arith, n)) i k
  ],
)

BusIn-first :
    (s : Bus) (bus end : ℕ) (b d : ℕ)
    → bus < end
    → DeviceIn s bus 0 32 (some (b, d))
    → BusIn s bus end (some (b, d))
BusIn-first s bus end b d l h = (
  omega (arith, h.0),
  omega (arith, h.0),
  h.2,
  rw h.0 h.3,
  λ c e k i o. elim o [
    | inl m ↦ absurd (omega (arith, h.0))
    | inr m ↦ rw (m.0, h.0) (h.4 e (omega arith) m.1)
  ],
)

scan_buses-BusIn : (s : Bus) (left bus : ℕ) → BusIn s bus (bus + left) (scan_buses s left bus)
unfolding scan_buses
scan_buses-BusIn s zero bus = λ b d l k i. absurd (omega arith)
scan_buses-BusIn s (suc left) bus =
    step (scan_devices s bus 32 0) (scan_devices-DeviceIn s bus 32 0)
      (scan_buses-BusIn s left (suc bus))
  where
    step :
        (r : Option (ℕ × ℕ))
        → DeviceIn s bus 0 32 r
        → BusIn s (suc bus) (suc bus + left) (scan_buses s left (suc bus))
        → BusIn s bus
            (bus + suc left)
            (elim r [ none ↦ scan_buses s left (suc bus) | some found ↦ some found ])
    step none h g =
        let e : suc bus + left ≡ bus + suc left = omega arith in
        rw (sym e) (
          BusIn-earlier s bus (suc bus + left) (scan_buses s left (suc bus))
            (λ d k. h d (omega arith) k) g)
    step (some (b, d)) h _ = BusIn-first s bus (bus + suc left) b d (omega arith) h

-- findAC97 panics exactly if no bus below 255 has an AC97 among its 32 devices, and otherwise
-- sets up the first one in the order of bus and device: it is an AC97, and every device before it
-- is none.
pub find_ac97-First :
    (s : Bus)
    → ((find_ac97 s ≡ panic) × BusIn s 0 255 none)
      ⊎ ((b : ℕ) × (d : ℕ) × (find_ac97 s ≡ ok (set_up s (b, d))) × BusIn s 0 255 (some (b, d)))
unfolding find_ac97
find_ac97-First s = step (scan_buses s 255 0) (scan_buses-BusIn s 255 0)
  where
    step :
        (r : Option (ℕ × ℕ))
        → BusIn s 0 255 r
        → let o : Outcome Found = elim r [ none ↦ panic | some found ↦ ok (set_up s found) ] in
          ((o ≡ panic) × BusIn s 0 255 none)
          ⊎ ((b : ℕ) × (d : ℕ) × (o ≡ ok (set_up s (b, d))) × BusIn s 0 255 (some (b, d)))
    step none h = inl (refl, h)
    step (some (b, d)) h = inr (b, d, refl, h)
