-- ===== src/Ata/Wait.antt =====
-- The waiting loops end when the device is ready in time.
use aeon_486_os.Base.{
  ℕ, zero, suc, ◌+◌, ◌^◌, ◌%◌, ◌≤◌, ◌<◌, ◌≡◌, refl, arith, bit_and, nonzero, true, false, ◌∷◌, ◌∙◌,
  length, Bool-cases, inl, inr, if◌then◌else◌,
}
use aeon_486_os.Platform.Hal.{Trace, Device, inportb, in_width, Event}
use aeon_486_os.Ata.{poll_busy, poll_drq, read_altstatus, ata_poll_status, ready, device_failure}

-- The status register at `port` never has its error bit, and once as many events as `bound` have
-- been it shows that the device is not busy and has data.
pub record IsReadyAfter (device : Device) (port bound : ℕ) : Type 0 where
  pub no_error : (t : Trace) → nonzero (bit_and (device t port % 2 ^ 8) 0x01) ≡ false
  pub not_busy :
      (t : Trace) → bound ≤ length t → nonzero (bit_and (device t port % 2 ^ 8) 0x80) ≡ false
  pub has_data :
      (t : Trace) → bound ≤ length t → nonzero (bit_and (device t port % 2 ^ 8) 0x08) ≡ true

module _ (device : Device) (base_io bound : ℕ) (fits : base_io < 0x1000)
    (contract : IsReadyAfter device (base_io + 7) bound) where
  -- The status that is read next.
  abbrev status_at : Trace → ℕ
  status_at trace = device trace (base_io + 7) % 2 ^ 8

  abbrev seen : Trace → Trace
  seen trace = Event.in_port (base_io + 7) (status_at trace) ∷ trace

  status_port : (base_io + 7) % 2 ^ 16 ≡ base_io + 7
  status_port = omega arith

  poll_busy-round :
      (fuel : ℕ) (trace : Trace)
      → poll_busy (suc fuel) device trace base_io ≡ (
          if nonzero (bit_and (status_at trace) 0x80)
          then poll_busy fuel device (seen trace) base_io
          else ready (seen trace))
  unfolding poll_busy inportb in_width
  poll_busy-round fuel trace = rw status_port refl

  poll_drq-round :
      (fuel : ℕ) (trace : Trace)
      → poll_drq (suc fuel) device trace base_io ≡ (
          if nonzero (bit_and (status_at trace) 0x01)
          then device_failure
          else if nonzero (bit_and (status_at trace) 0x08)
          then ready (seen trace)
          else poll_drq fuel device (seen trace) base_io)
  unfolding poll_drq inportb in_width
  poll_drq-round fuel trace = rw status_port refl

  pub poll_busy-ready :
      (fuel : ℕ) (trace : Trace)
      → bound ≤ length trace + fuel
      → (after : Trace) × (poll_busy (suc fuel) device trace base_io ≡ ready after)
        × (length trace ≤ length after)
  poll_busy-ready zero trace enough =
      let clear = contract.not_busy trace (omega arith) in
      (seen trace, poll_busy-round zero trace ∙ rw clear refl, omega arith)
  poll_busy-ready (suc fuel) trace enough =
      elim (Bool-cases (nonzero (bit_and (status_at trace) 0x80))) [
        | inl busy ↦
            let (after, runs, longer) = poll_busy-ready fuel (seen trace) (omega arith) in
            (after, poll_busy-round (suc fuel) trace ∙ rw busy runs, omega arith)
        | inr clear ↦ (seen trace, poll_busy-round (suc fuel) trace ∙ rw clear refl, omega arith)
      ]

  pub poll_drq-ready :
      (fuel : ℕ) (trace : Trace)
      → bound ≤ length trace + fuel
      → (after : Trace) × (poll_drq (suc fuel) device trace base_io ≡ ready after)
  poll_drq-ready zero trace enough =
      let data_there = contract.has_data trace (omega arith) in
      (seen trace, poll_drq-round zero trace ∙ rw (contract.no_error trace, data_there) refl)
  poll_drq-ready (suc fuel) trace enough =
      elim (Bool-cases (nonzero (bit_and (status_at trace) 0x08))) [
        | inl there ↦
            (seen trace, poll_drq-round (suc fuel) trace ∙ rw (contract.no_error trace, there) refl)
        | inr missing ↦
            let (after, runs) = poll_drq-ready fuel (seen trace) (omega arith) in
            (after, poll_drq-round (suc fuel) trace ∙ rw (contract.no_error trace, missing) runs)
      ]

  -- `ata_poll_status` ends, if the device is ready once `bound` events have been and the fuel is more
  -- than `bound`.
  pub ata_poll_status-ready :
      (fuel : ℕ) (trace : Trace)
      → bound < fuel
      → (after : Trace) × (ata_poll_status fuel device trace base_io ≡ ready after)
  unfolding ata_poll_status
  ata_poll_status-ready zero trace enough = absurd (omega arith)
  ata_poll_status-ready (suc fuel) trace enough =
      let start = read_altstatus 4 device trace base_io in
      let (idle, runs, longer) = poll_busy-ready fuel start (omega arith) in
      let (after, ends) = poll_drq-ready fuel idle (omega arith) in (after, rw runs ends)
