-- ===== src/Ata/Tests.antt =====
-- The theorems on the disk driver at concrete inputs.
use aeon_486_os.Base.{ℕ, ◌≢◌, ◌+◌, ◌≡◌, arith, refl, []}
use aeon_486_os.Klibc.Memory.{Memory}
use aeon_486_os.Platform.Hal.{Trace, Device}
use aeon_486_os.Ata.{ready, Transfer, ata_read_sector}
use aeon_486_os.Ata.Identify.{AtaInfo, no_drive, ata_identify}
use aeon_486_os.Ata.Identify.Found.{IsFound}
use aeon_486_os.Ata.Identify.Ready.{IsPresent, ata_identify-ready}
use aeon_486_os.Ata.Wait.{IsReadyAfter}
use aeon_486_os.Ata.Sector.{base_of, after_words, filled, word_of}
use aeon_486_os.Ata.Observed.{IsSeenReady}
use aeon_486_os.Ata.Sector.Read.{IsAsked, ata_read_sector_lem}

-- A drive that is ready at once: its status is 0x58, as the other ports give.
abbrev prompt : Device
prompt = λ trace port. 0x58

prompt-IsReadyAfter : IsReadyAfter prompt (0x1F0 + 7) 0
prompt-IsReadyAfter = record {
  no_error = λ t. refl;
  not_busy = λ t h. refl;
  has_data = λ t h. refl;
}

abbrev zeros : Memory
zeros = λ x. 0

ata_read_sector_lem_example :
    (command : Trace) × (start : Trace) × (done : Transfer) × IsAsked (base_of 0) 0 5 [] command
    × IsSeenReady prompt (base_of 0 + 7) command start
    × (ata_read_sector 1 prompt [] zeros 0 0 5 0x2000 ≡ ready done)
    × (done.memory 0x2003 ≡ filled (word_of prompt start (base_of 0)) 0 0x2000 0 256 0x2003)
ata_read_sector_lem_example =
    ata_read_sector_lem 1 prompt [] zeros 0 0 5 0x2000 0 0x2003 prompt-IsReadyAfter (omega arith)

-- Such a drive on any bus.
prompt-IsPresent : (port : ℕ) → IsPresent prompt port 0
prompt-IsPresent port = record {
  status = λ t. refl;
  ready_after = record { no_error = λ t. refl; not_busy = λ t h. refl; has_data = λ t h. refl };
}

abbrev empty_info : AtaInfo
empty_info = λ bus drive. no_drive

ata_identify-ready_example :
    (found : AtaInfo) × (start : Trace) × (ata_identify 1 prompt empty_info [] 0 1
      ≡ ready (found, after_words prompt start (base_of 0) 256))
    × IsFound (word_of prompt start (base_of 0)) (found 0 1)
ata_identify-ready_example =
    ata_identify-ready 1 prompt empty_info [] 0 1 0 (prompt-IsPresent (base_of 0 + 7)) refl
      (omega arith)

abbrev identified :
    (found : AtaInfo) × (start : Trace) × (ata_identify 1 prompt empty_info [] 0 1
      ≡ ready (found, after_words prompt start (base_of 0) 256))
    × IsFound (word_of prompt start (base_of 0)) (found 0 1)
identified =
    ata_identify-ready 1 prompt empty_info [] 0 1 0 (prompt-IsPresent (base_of 0 + 7)) refl
      (omega arith)

one_zero : ◌≢◌ {A = ℕ} 0 1
one_zero e = omega arith
