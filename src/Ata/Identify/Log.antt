-- ===== src/Ata/Identify/Log.antt =====
-- What the search for drives prints.
use aeon_486_os.Base.{
  ℕ, zero, suc, ◌+◌, ◌^◌, ◌%◌, ◌≡◌, ◌≢◌, ◌<◌, ◌⊎◌, refl, sym, ap, ◌∙◌, subst, List, [], ◌∷◌, ◌++◌,
  Bool, true, false, nonzero, bit_and, Bool-cases, inl, inr, arith,
}
use aeon_486_os.Klibc.Memory.{Memory}
use aeon_486_os.Platform.Hal.{Trace, Device, Message, inportb, inportw, in_width, outportb, kprintf}
use aeon_486_os.Platform.Messages.{messages_of}
use aeon_486_os.Ata.{
  Polled, ready, device_failure, waiting, poll_busy, read_words, ata_reg_status, ata_sr_bsy,
  ata_sr_err, ata_sr_drq,
}
use aeon_486_os.Ata.Sector.{base_of}
use aeon_486_os.Ata.Identify.{
  AtaInfo, DriveInfo, identify_command, identify_poll, identify_polled, identify_idle, ata_identify,
  ata_probe, no_drive, ◌then_identify◌,
}
use aeon_486_os.Ata.Identify.Ready.{select_trace, asked, ata_identify-status}
use aeon_486_os.Ata.Identify.Other.{ata_identify-other}

-- A loop that waits says nothing, if it ends.
Quiet : Trace → Polled Trace → Type 0
Quiet trace (ready after) = messages_of after ≡ messages_of trace
Quiet trace device_failure = Unit
Quiet trace waiting = Unit

poll_busy-Quiet :
    (fuel : ℕ) (device : Device) (trace : Trace) (io : ℕ)
    → Quiet trace (poll_busy fuel device trace io)
unfolding poll_busy Quiet messages_of inportb in_width
poll_busy-Quiet zero device trace io = tt
poll_busy-Quiet (suc fuel) device trace io =
    let status = inportb device trace (io + ata_reg_status) in
    elim (Bool-cases (nonzero (bit_and status.value ata_sr_bsy))) [
      | inl busy ↦ rw busy (poll_busy-Quiet fuel device status.trace io)
      | inr idle ↦ rw idle refl
    ]

QuietBool : Trace → Polled (Bool × Trace) → Type 0
QuietBool trace (ready (found, after)) = messages_of after ≡ messages_of trace
QuietBool trace device_failure = Unit
QuietBool trace waiting = Unit

identify_poll-Quiet :
    (fuel : ℕ) (device : Device) (trace : Trace) (io : ℕ)
    → QuietBool trace (identify_poll fuel device trace io)
unfolding identify_poll QuietBool messages_of inportb in_width
identify_poll-Quiet zero device trace io = tt
identify_poll-Quiet (suc fuel) device trace io =
    let status = inportb device trace (io + ata_reg_status) in
    elim (Bool-cases (nonzero (bit_and status.value ata_sr_err))) [
      | inl err ↦ rw err refl
      | inr fine ↦ elim (Bool-cases (nonzero (bit_and status.value ata_sr_drq))) [
        | inl there ↦ rw (fine, there) refl
        | inr missing ↦ rw (fine, missing) (identify_poll-Quiet fuel device status.trace io)
      ]
    ]

messages_of-read_words :
    (count : ℕ) (device : Device) (trace : Trace) (mem : Memory) (io dst i : ℕ)
    → messages_of (read_words count device trace mem io dst i).trace ≡ messages_of trace
unfolding read_words messages_of inportw in_width
messages_of-read_words zero device trace mem io dst i = refl
messages_of-read_words (suc count) device trace mem io dst i =
    messages_of-read_words count device _ _ io dst (i + 1)

-- A result that has said that the drive is online, or has left the drive as it was.
Says : (info : AtaInfo) (trace : Trace) (bus drive : ℕ) → Polled (AtaInfo × Trace) → Type 0
Says info trace bus drive (ready (found, after)) =
    (messages_of after ≡ messages_of trace ++ (Message.drive_online bus drive ∷ []))
    ⊎ (found bus drive ≡ info bus drive)
Says info trace bus drive device_failure = Unit
Says info trace bus drive waiting = Unit

identify_polled-Says :
    (device : Device) (info : AtaInfo) (trace : Trace) (bus drive io : ℕ)
    (polled : Polled (Bool × Trace))
    → QuietBool trace polled
    → Says info trace bus drive (identify_polled device info bus drive io polled)
unfolding identify_polled Says QuietBool messages_of kprintf
identify_polled-Says device info trace bus drive io (ready (false, after)) quiet = inr refl
identify_polled-Says device info trace bus drive io (ready (true, after)) quiet = inl (
    messages_of-read_words 256 device (kprintf after (Message.drive_online bus drive))
      (info bus drive).buffer io 0 0
    ∙ ap (λ ms. ms ++ (Message.drive_online bus drive ∷ [])) quiet)
identify_polled-Says device info trace bus drive io device_failure quiet = tt
identify_polled-Says device info trace bus drive io waiting quiet = tt

QuietBool-from :
    (t u : Trace) (polled : Polled (Bool × Trace))
    → messages_of t ≡ messages_of u
    → QuietBool t polled
    → QuietBool u polled
unfolding QuietBool
QuietBool-from t u (ready (found, after)) same quiet = quiet ∙ same
QuietBool-from t u device_failure same quiet = tt
QuietBool-from t u waiting same quiet = tt

Quiet-from :
    (t u : Trace) (polled : Polled Trace)
    → messages_of t ≡ messages_of u
    → Quiet t polled
    → Quiet u polled
unfolding Quiet
Quiet-from t u (ready after) same quiet = quiet ∙ same
Quiet-from t u device_failure same quiet = tt
Quiet-from t u waiting same quiet = tt

identify_idle-Says :
    (fuel : ℕ) (device : Device) (info : AtaInfo) (trace : Trace) (bus drive io : ℕ)
    (polled : Polled Trace)
    → Quiet trace polled
    → Says info trace bus drive (identify_idle fuel device info bus drive io polled)
unfolding identify_idle Says Quiet
identify_idle-Says fuel device info trace bus drive io (ready after) quiet =
    identify_polled-Says device info trace bus drive io (identify_poll fuel device after io) (
      QuietBool-from after trace (identify_poll fuel device after io) quiet
        (identify_poll-Quiet fuel device after io))
identify_idle-Says fuel device info trace bus drive io device_failure quiet = tt
identify_idle-Says fuel device info trace bus drive io waiting quiet = tt

zero_one : ◌≢◌ {A = ℕ} 0 1
zero_one e = omega arith

messages_of-asked :
    (device : Device) (trace : Trace) (bus drive : ℕ)
    → messages_of (asked device trace bus drive) ≡ messages_of trace
unfolding messages_of identify_command outportb
messages_of-asked device trace bus drive = refl

ata_identify-Says :
    (fuel : ℕ) (device : Device) (info : AtaInfo) (trace : Trace) (bus drive : ℕ)
    → Says info trace bus drive (ata_identify fuel device info trace bus drive)
unfolding Says
ata_identify-Says fuel device info trace bus drive =
    let io = base_of bus in
    let next = asked device trace bus drive in
    let command = identify_command (select_trace trace bus drive) io in
    rw (ata_identify-status fuel device info trace bus drive)
      (elim (Bool-cases (nonzero (device command (io + 7) % 2 ^ 8))) [
        | inl there ↦ rw there (
            identify_idle-Says fuel device info trace bus drive io (poll_busy fuel device next io) (
              Quiet-from next trace (poll_busy fuel device next io)
                (messages_of-asked device trace bus drive) (poll_busy-Quiet fuel device next io)))
        | inr missing ↦ rw missing (inr refl)
      ])

-- A call that has found a drive where none was known says that it is online, and nothing else.
pub ata_identify-online :
    (fuel : ℕ) (device : Device) (info found : AtaInfo) (trace after : Trace) (bus drive : ℕ)
    → ata_identify fuel device info trace bus drive ≡ ready (found, after)
    → info bus drive ≡ no_drive
    → (found bus drive).available ≡ 1
    → messages_of after ≡ messages_of trace ++ (Message.drive_online bus drive ∷ [])
unfolding Says
ata_identify-online fuel device info found trace after bus drive ends none known =
    elim (subst (Says info trace bus drive) ends
      (ata_identify-Says fuel device info trace bus drive)) [
        | inl said ↦ said
        | inr same ↦ absurd (not_there (same ∙ none) known)
      ]
  where
    not_there : found bus drive ≡ no_drive → (found bus drive).available ≡ 1 → ⊥
    not_there nothing there = zero_one (sym (ap (λ (d : DriveInfo). d.available) nothing) ∙ there)

-- The two calls behind one result.
then_identify-ready :
    (first : Polled (AtaInfo × Trace)) (second : AtaInfo → Trace → Polled (AtaInfo × Trace))
    (found : AtaInfo) (after : Trace)
    → first then_identify second ≡ ready (found, after)
    → (info : AtaInfo) × (trace : Trace) × (first ≡ ready (info, trace))
      × (second info trace ≡ ready (found, after))
then_identify-ready (ready (info, trace)) second found after ends = (info, trace, refl, ends)
then_identify-ready device_failure second found after ends = absurd (cc)
then_identify-ready waiting second found after ends = absurd (cc)

-- The messages of `ata_probe` behind those before it, when it finds all four drives.
abbrev pub all_online : List Message → List Message
all_online before =
    (((before ++ (Message.drive_online 0 0 ∷ [])) ++ (Message.drive_online 0 1 ∷ []))
      ++ (Message.drive_online 1 0 ∷ []))
    ++ (Message.drive_online 1 1 ∷ [])

one_zero : ◌≢◌ {A = ℕ} 1 0
one_zero e = omega arith

available_as : {d e : DriveInfo} → e ≡ d → e.available ≡ 1 → d.available ≡ 1
available_as same there = sym (ap (λ (x : DriveInfo). x.available) same) ∙ there

pub ata_probe-online :
    (fuel : ℕ) (device : Device) (found : AtaInfo) (trace after : Trace)
    → ata_probe fuel device (λ bus drive. no_drive) trace ≡ ready (found, after)
    → ((b e : ℕ) → b < 2 → e < 2 → (found b e).available ≡ 1)
    → messages_of after ≡ all_online (messages_of trace)
unfolding ata_probe
ata_probe-online fuel device found trace after ends known =
    let (f3, t3, e3, r4) =
      then_identify-ready _ (λ i t. ata_identify fuel device i t 1 1) found after ends in
    let (f2, t2, e2, r3) =
      then_identify-ready _ (λ i t. ata_identify fuel device i t 1 0) f3 t3 e3 in
    let (f1, t1, r1, r2) =
      then_identify-ready _ (λ i t. ata_identify fuel device i t 0 1) f2 t2 e2 in
    let empty : AtaInfo = λ bus drive. no_drive in
    let o4 = λ (b e : ℕ) (h : (b ≢ 1) ⊎ (e ≢ 1)).
      ata_identify-other device f3 1 1 b e h fuel t3 after found r4 in
    let o3 = λ (b e : ℕ) (h : (b ≢ 1) ⊎ (e ≢ 0)).
      ata_identify-other device f2 1 0 b e h fuel t2 t3 f3 r3 in
    let o2 = λ (b e : ℕ) (h : (b ≢ 0) ⊎ (e ≢ 1)).
      ata_identify-other device f1 0 1 b e h fuel t1 t2 f2 r2 in
    let o1 = λ (b e : ℕ) (h : (b ≢ 0) ⊎ (e ≢ 0)).
      ata_identify-other device empty 0 0 b e h fuel trace t1 f1 r1 in
    let m1 = ata_identify-online fuel device empty f1 trace t1 0 0 r1 refl (
      available_as (o4 0 0 (inl zero_one) ∙ o3 0 0 (inl zero_one) ∙ o2 0 0 (inr zero_one))
        (known 0 0 (omega arith) (omega arith))) in
    let m2 = ata_identify-online fuel device f1 f2 t1 t2 0 1 r2 (o1 0 1 (inr one_zero)) (
      available_as (o4 0 1 (inl zero_one) ∙ o3 0 1 (inl zero_one))
        (known 0 1 (omega arith) (omega arith))) in
    let m3 =
      ata_identify-online fuel device f2 f3 t2 t3 1 0 r3
        (o2 1 0 (inl one_zero) ∙ o1 1 0 (inl one_zero))
        (available_as (o4 1 0 (inr zero_one)) (known 1 0 (omega arith) (omega arith))) in
    let m4 =
      ata_identify-online fuel device f3 found t3 after 1 1 r4
        (o3 1 1 (inr one_zero) ∙ o2 1 1 (inl one_zero) ∙ o1 1 1 (inl one_zero))
        (known 1 1 (omega arith) (omega arith)) in
    m4
    ∙ ap (λ ms. ms ++ (Message.drive_online 1 1 ∷ []))
        (m3
          ∙ ap (λ ms. ms ++ (Message.drive_online 1 0 ∷ []))
              (m2 ∙ ap (λ ms. ms ++ (Message.drive_online 0 1 ∷ [])) m1))
