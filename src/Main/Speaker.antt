-- ===== src/Main/Speaker.antt =====
-- `play_sound` and `nosound` of main.c.
use aeon_486_os.Base.{
  ℕ, ◌+◌, ◌*◌, ◌/◌, ◌%◌, ◌^◌, ◌≤◌, ◌<◌, ◌≡◌, ◌⊎◌, refl, arith, ok, ◌==◌, true, false, ◌∷◌, bit_and,
  bit_or, all_below, all_below_sound, ==→eq, Bool-cases, inl, inr,
}
use native.Mathlib.Nat.{div-lt_iff_lt-mul}
use aeon_486_os.Base.Word.{shr}
use aeon_486_os.Platform.Hal.{Trace, Device, inportb, outportb, in_width, written}
use aeon_486_os.Main.{play_sound, nosound}

or_table : all_below 256 (λ v. bit_or v 3 == v / 4 * 4 + 3) ≡ true
unfolding all_below
or_table = refl

and_table : all_below 256 (λ v. bit_and v 0xFC == v / 4 * 4) ≡ true
unfolding all_below
and_table = refl

bit_or-three : (v : ℕ) → v < 256 → bit_or v 3 ≡ v / 4 * 4 + 3
bit_or-three v small =
    ==→eq (bit_or v 3) (v / 4 * 4 + 3)
      (all_below_sound 256 (λ x. bit_or x 3 == x / 4 * 4 + 3) v or_table small)

bit_and-rest : (v : ℕ) → v < 256 → bit_and v 0xFC ≡ v / 4 * 4
bit_and-rest v small =
    ==→eq (bit_and v 0xFC) (v / 4 * 4)
      (all_below_sound 256 (λ x. bit_and x 0xFC == x / 4 * 4) v and_table small)

-- `nosound` writes what the port of the speaker gives, with its two low bits clear and all others as
-- they are.
pub nosound_lem :
    (device : Device) (trace : Trace)
    → written 0x61 (nosound device trace) ≡ device trace 0x61 % 2 ^ 8 / 4 * 4 ∷ written 0x61 trace
unfolding nosound inportb outportb in_width written
nosound_lem device trace =
    let v = device trace 0x61 % 2 ^ 8 in
    let byte : v / 4 * 4 % 2 ^ 8 ≡ v / 4 * 4 = omega arith in
    rw (bit_and-rest v (omega arith), byte) refl

divisor_small : (frequence : ℕ) → 19 ≤ frequence → 1193180 / frequence < 65536
divisor_small frequence audible =
    (div-lt_iff_lt-mul {k = frequence} {x = 1193180} {y = 65536} (omega arith)).1 (omega arith)

-- From 19 Hz on, `play_sound` gives the timer a divisor in two bytes, the low one first, that is the
-- clock by the frequency; and then the port of the speaker, if it does not give 1 in its two low bits,
-- is written with 1 in them and all others as they are.
pub play_sound_lem :
    (device : Device) (trace : Trace) (frequence : ℕ)
    → 19 ≤ frequence
    → (after set_up : Trace) × (low high : ℕ) × (play_sound device trace frequence ≡ ok after)
      × (written 0x42 after ≡ high ∷ low ∷ written 0x42 trace)
      × (high * 256 + low ≡ 1193180 / frequence)
      × (written 0x43 after ≡ 0xb6 ∷ written 0x43 trace)
      × (((device set_up 0x61 % 4 ≡ 3) × (written 0x61 after ≡ written 0x61 trace))
          ⊎ (written 0x61 after ≡ (device set_up 0x61 % 2 ^ 8 / 4 * 4 + 3) ∷ written 0x61 trace))
unfolding play_sound inportb outportb in_width written
play_sound_lem device trace frequence audible =
    let div = 1193180 / frequence in
    let small = divisor_small frequence audible in
    let some_time : (frequence == 0) ≡ false = ground arith in
    let mode = outportb trace 0x43 0xb6 in
    let set_up = outportb (outportb mode 0x42 div) 0x42 (shr div 8) in
    let v = device set_up 0x61 % 2 ^ 8 in
    let set = bit_or-three v (omega arith) in
    let bytes : shr div 8 % 2 ^ 8 * 256 + div % 2 ^ 8 ≡ div = omega (arith, small) in
    elim (Bool-cases (v == bit_or v 3)) [
      | inl same ↦
          let gate : device set_up 0x61 % 4 ≡ 3 = omega (arith, set, ==→eq v (bit_or v 3) same) in
          (
            (inportb device set_up 0x61).trace,
            set_up,
            div % 2 ^ 8,
            shr div 8 % 2 ^ 8,
            rw (some_time, same) refl,
            refl,
            bytes,
            refl,
            inl (gate, refl),
          )
      | inr other ↦
          let byte : (v / 4 * 4 + 3) % 2 ^ 8 ≡ v / 4 * 4 + 3 = omega arith in
          (
            outportb (inportb device set_up 0x61).trace 0x61 (bit_or v 3),
            set_up,
            div % 2 ^ 8,
            shr div 8 % 2 ^ 8,
            rw (some_time, other) refl,
            refl,
            bytes,
            refl,
            inr (rw (set, byte) refl),
          )
    ]
