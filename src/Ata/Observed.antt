-- ===== src/Ata/Observed.antt =====
-- What the driver has read of the status when its waiting loops end.
use aeon_486_os.Base.{
  ℕ, zero, suc, ◌+◌, ◌%◌, ◌^◌, ◌<◌, ◌≡◌, ◌∙◌, sym, subst, refl, arith, bit_and, nonzero, true,
  false, ◌∷◌, Bool-cases, inl, inr, if◌then◌else◌,
}
use aeon_486_os.Platform.Hal.{Trace, Device, inportb, in_width, Event}
use aeon_486_os.Ata.{
  poll_busy, poll_drq, read_altstatus, ata_poll_status, then_poll, Polled, ready, device_failure,
  waiting,
}

-- A trace goes on by reads of ports alone.
pub data Reads (from : Trace) : Trace → Type 0 where
  here : Reads from from
  next : {t : Trace} (port value : ℕ) → Reads from t → Reads from (Event.in_port port value ∷ t)

pub Reads-append : {a b c : Trace} → Reads a b → Reads b c → Reads a c
Reads-append first here = first
Reads-append first (next port value rest) = next port value (Reads-append first rest)

-- The status that a device gives next, and the trace once it has been read.
abbrev pub status_at : Device → (port : ℕ) → Trace → ℕ
status_at device port trace = device trace port % 2 ^ 8

abbrev pub with_status : Device → (port : ℕ) → Trace → Trace
with_status device port trace = Event.in_port port (status_at device port trace) ∷ trace

-- Since `command` nothing but reads has been, among them one of the status that was not busy (bit 7), and
-- behind it, as the newest event, one without an error (bit 0) and with data (bit 3).
pub record IsSeenReady (device : Device) (port : ℕ) (command start : Trace) : Type 0 where
  pub idle : Trace
  pub last : Trace
  pub first_reads : Reads command idle
  pub not_busy : nonzero (bit_and (status_at device port idle) 0x80) ≡ false
  pub then_reads : Reads (with_status device port idle) last
  pub no_error : nonzero (bit_and (status_at device port last) 0x01) ≡ false
  pub has_data : nonzero (bit_and (status_at device port last) 0x08) ≡ true
  pub newest_event : start ≡ with_status device port last

module _ (device : Device) (base_io : ℕ) (fits : base_io < 0x1000) where
  abbrev port : ℕ
  port = base_io + 7

  status_port : (base_io + 7) % 2 ^ 16 ≡ base_io + 7
  status_port = omega arith

  busy-round :
      (fuel : ℕ) (trace : Trace)
      → poll_busy (suc fuel) device trace base_io ≡ (
          if nonzero (bit_and (status_at device port trace) 0x80)
          then poll_busy fuel device (with_status device port trace) base_io
          else ready (with_status device port trace))
  unfolding poll_busy inportb in_width
  busy-round fuel trace = rw status_port refl

  drq-round :
      (fuel : ℕ) (trace : Trace)
      → poll_drq (suc fuel) device trace base_io ≡ (
          if nonzero (bit_and (status_at device port trace) 0x01)
          then device_failure
          else if nonzero (bit_and (status_at device port trace) 0x08)
          then ready (with_status device port trace)
          else poll_drq fuel device (with_status device port trace) base_io)
  unfolding poll_drq inportb in_width
  drq-round fuel trace = rw status_port refl

  pub poll_busy-seen :
      (fuel : ℕ) (trace : Trace) {after : Trace}
      → poll_busy fuel device trace base_io ≡ ready after
      → (idle : Trace) × Reads trace idle
        × (nonzero (bit_and (status_at device port idle) 0x80) ≡ false)
        × (after ≡ with_status device port idle)
  unfolding poll_busy
  poll_busy-seen zero trace ends = absurd (cc)
  poll_busy-seen (suc fuel) trace {after} ends =
      let seen = with_status device port trace in
      elim (Bool-cases (nonzero (bit_and (status_at device port trace) 0x80))) [
        | inl busy ↦
            let again : poll_busy (suc fuel) device trace base_io
                ≡ poll_busy fuel device seen base_io =
              busy-round fuel trace ∙ rw busy refl in
            let (idle, reads, clear, newest) = poll_busy-seen fuel seen (sym again ∙ ends) in
            let first : Reads trace seen = next port (status_at device port trace) here in
            (idle, Reads-append first reads, clear, newest)
        | inr clear ↦
            let stops : poll_busy (suc fuel) device trace base_io ≡ ready seen =
              busy-round fuel trace ∙ rw clear refl in
            let same : ready seen ≡ ready after = sym stops ∙ ends in (trace, here, clear, cc)
      ]

  pub poll_drq-seen :
      (fuel : ℕ) (trace : Trace) {after : Trace}
      → poll_drq fuel device trace base_io ≡ ready after
      → (last : Trace) × Reads trace last
        × (nonzero (bit_and (status_at device port last) 0x01) ≡ false)
        × (nonzero (bit_and (status_at device port last) 0x08) ≡ true)
        × (after ≡ with_status device port last)
  unfolding poll_drq
  poll_drq-seen zero trace ends = absurd (cc)
  poll_drq-seen (suc fuel) trace {after} ends =
      let seen = with_status device port trace in
      elim (Bool-cases (nonzero (bit_and (status_at device port trace) 0x01))) [
        | inl error ↦
            let stops : poll_drq (suc fuel) device trace base_io ≡ device_failure =
              drq-round fuel trace ∙ rw error refl in
            absurd (cc)
        | inr good ↦ elim (Bool-cases (nonzero (bit_and (status_at device port trace) 0x08))) [
          | inl there ↦
              let stops : poll_drq (suc fuel) device trace base_io ≡ ready seen =
                drq-round fuel trace ∙ rw (good, there) refl in
              let same : ready seen ≡ ready after = sym stops ∙ ends in
              (trace, here, good, there, cc)
          | inr missing ↦
              let again : poll_drq (suc fuel) device trace base_io
                  ≡ poll_drq fuel device seen base_io =
                drq-round fuel trace ∙ rw (good, missing) refl in
              let (last, reads, fine, full, newest) = poll_drq-seen fuel seen (sym again ∙ ends) in
              let first : Reads trace seen = next port (status_at device port trace) here in
              (last, Reads-append first reads, fine, full, newest)
        ]
      ]

  altstatus-Reads :
      (count : ℕ) (trace : Trace) → Reads trace (read_altstatus count device trace base_io)
  unfolding read_altstatus inportb in_width
  altstatus-Reads zero trace = here
  altstatus-Reads (suc count) trace = Reads-append (next _ _ here) (altstatus-Reads count _)

  polled-seen :
      (fuel : ℕ) (command begun : Trace) (busy : Polled Trace) {start : Trace}
      → Reads command begun
      → poll_busy fuel device begun base_io ≡ busy
      → then_poll busy (λ after. poll_drq fuel device after base_io) ≡ ready start
      → IsSeenReady device port command start
  polled-seen fuel command begun (ready quiet) reads waits ends =
      let (idle, to_idle, clear, at_idle) = poll_busy-seen fuel begun waits in
      let (last, to_last, fine, full, newest) = poll_drq-seen fuel quiet ends in
      record {
        idle = idle;
        last = last;
        first_reads = Reads-append reads to_idle;
        not_busy = clear;
        then_reads = subst (λ (t : Trace). Reads t last) at_idle to_last;
        no_error = fine;
        has_data = full;
        newest_event = newest;
      }
  polled-seen fuel command begun device_failure reads waits ends = absurd (cc)
  polled-seen fuel command begun waiting reads waits ends = absurd (cc)

  -- What `ata_poll_status` has seen when it ends.
  pub ata_poll_status-seen :
      (fuel : ℕ) (command : Trace) {start : Trace}
      → ata_poll_status fuel device command base_io ≡ ready start
      → IsSeenReady device port command start
  unfolding ata_poll_status
  ata_poll_status-seen fuel command ends =
      polled-seen fuel command (read_altstatus 4 device command base_io) _
        (altstatus-Reads 4 command) refl ends
