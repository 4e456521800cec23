-- ===== src/Ata/Identify/Other.antt =====
-- `ata_identify` and the drives that it is not called for.
use aeon_486_os.Base.{
  ℕ, ◌+◌, ◌^◌, ◌%◌, ◌≡◌, ◌≢◌, ◌⊎◌, refl, subst, Bool, true, false, nonzero, Bool-cases, inl, inr,
}
use aeon_486_os.Platform.Hal.{Trace, Device}
use aeon_486_os.Ata.{Polled, ready, device_failure, waiting}
use aeon_486_os.Ata.Sector.{base_of}
use aeon_486_os.Ata.Identify.{
  AtaInfo, identify_command, identify_polled, identify_idle, ata_identify,
}
use aeon_486_os.Ata.Identify.Ready.{select_trace, ata_identify-status, set_drive_other}

-- A result that leaves a drive as it was, if there is one.
Keeps : (info : AtaInfo) (b e : ℕ) → Polled (AtaInfo × Trace) → Type 0
Keeps info b e (ready (found, trace)) = found b e ≡ info b e
Keeps info b e device_failure = Unit
Keeps info b e waiting = Unit

module _ (device : Device) (info : AtaInfo) (bus drive b e : ℕ)
    (other : (b ≢ bus) ⊎ (e ≢ drive)) where
  identify_polled-Keeps :
      (io : ℕ) (polled : Polled (Bool × Trace))
      → Keeps info b e (identify_polled device info bus drive io polled)
  unfolding identify_polled Keeps
  identify_polled-Keeps io (ready (false, trace)) = refl
  identify_polled-Keeps io (ready (true, trace)) = set_drive_other info bus drive b e _ other
  identify_polled-Keeps io device_failure = tt
  identify_polled-Keeps io waiting = tt

  identify_idle-Keeps :
      (fuel io : ℕ) (polled : Polled Trace)
      → Keeps info b e (identify_idle fuel device info bus drive io polled)
  unfolding identify_idle Keeps
  identify_idle-Keeps fuel io (ready trace) = identify_polled-Keeps io _
  identify_idle-Keeps fuel io device_failure = tt
  identify_idle-Keeps fuel io waiting = tt

  ata_identify-Keeps :
      (fuel : ℕ) (trace : Trace) → Keeps info b e (ata_identify fuel device info trace bus drive)
  unfolding Keeps
  ata_identify-Keeps fuel trace =
      let command = identify_command (select_trace trace bus drive) (base_of bus) in
      rw (ata_identify-status fuel device info trace bus drive)
        (elim (Bool-cases (nonzero (device command (base_of bus + 7) % 2 ^ 8))) [
          | inl there ↦ rw there (identify_idle-Keeps fuel (base_of bus) _)
          | inr missing ↦ rw missing refl
        ])

  -- Whatever the drive answers, `ata_identify` leaves what is known of the other drives, if it ends.
  pub ata_identify-other :
      (fuel : ℕ) (trace after : Trace) (found : AtaInfo)
      → ata_identify fuel device info trace bus drive ≡ ready (found, after)
      → found b e ≡ info b e
  unfolding Keeps
  ata_identify-other fuel trace after found ends =
      subst (Keeps info b e) ends (ata_identify-Keeps fuel trace)
