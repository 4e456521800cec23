-- ===== src/Ata/Identify/Found.antt =====
-- What `ata_identify` takes from the sector that a drive describes itself with.
use aeon_486_os.Base.{
  ℕ, zero, suc, ◌+◌, ◌*◌, ◌/◌, ◌^◌, ◌%◌, ◌<◌, ◌≡◌, refl, arith, ◌∙◌, ap, List, length, get_or, set,
  length-set, get_or-set_self, get_or-set_ne,
}
use aeon_486_os.Klibc.Memory.{Memory}
use aeon_486_os.Ata.Sector.{word_byte}
use aeon_486_os.Ata.Layout.DeviceData.{device_data_read}
use aeon_486_os.Ata.Identify.{DriveInfo, copy_model, drive_of, load16}

-- The drive `d` is the one that the 256 words `w` describe: word 1, 3, 56 and the two from 57 on for
-- its size, and its name in the words 27 to 46, two characters each, the first in the high byte.
pub record IsFound (w : ℕ → ℕ) (d : DriveInfo) : Type 0 where
  pub online : d.available ≡ 1
  pub cylinders_lem : d.cylinders ≡ w 1
  pub heads_lem : d.heads ≡ w 3
  pub sectors_lem : d.sectors_per_track ≡ w 56
  pub total_lem : d.total_sectors ≡ w 57 + w 58 * 2 ^ 16
  pub model_first : (j : ℕ) → j < 20 → get_or d.model (j * 2) 0 ≡ w (27 + j) / 2 ^ 8
  pub model_second : (j : ℕ) → j < 20 → get_or d.model (j * 2 + 1) 0 ≡ w (27 + j) % 2 ^ 8
  pub model_end : get_or d.model 40 0 ≡ 0

-- `mem` holds the words `w` from address 0 on.
abbrev pub HoldsWords : (ℕ → ℕ) → Memory → Type 0
HoldsWords w mem = (x : ℕ) → x < 512 → mem x ≡ word_byte (w (x / 2)) x

module _ (w : ℕ → ℕ) (mem : Memory) (small : (k : ℕ) → w k < 2 ^ 16)
    (holds : HoldsWords w mem) where
  low_byte : (k : ℕ) → k < 256 → mem (k * 2) ≡ w k % 2 ^ 8
  low_byte k h =
      let half : k * 2 / 2 ≡ k = omega arith in
      let even : k * 2 % 2 ≡ 0 = omega arith in holds (k * 2) (omega arith) ∙ rw (half, even) refl

  high_byte : (k : ℕ) → k < 256 → mem (k * 2 + 1) ≡ w k / 2 ^ 8
  high_byte k h =
      let half : (k * 2 + 1) / 2 ≡ k = omega arith in
      let odd : (k * 2 + 1) % 2 ≡ 1 = omega arith in
      holds (k * 2 + 1) (omega arith) ∙ rw (half, odd) (omega (arith, small k))

  load16-word : (k : ℕ) → k < 256 → load16 mem (k * 2) ≡ w k
  load16-word k h = omega (arith, low_byte k h, high_byte k h, small k)

length-copy_model :
    (mem : Memory) (count i : ℕ) (model : List ℕ)
    → length (copy_model mem count i model) ≡ length model
unfolding copy_model
length-copy_model mem zero i model = refl
length-copy_model mem (suc count) i model =
    length-copy_model mem count (i + 2) _
    ∙ length-set (set model i _) (i + 1) _
    ∙ length-set model i _

-- What stands outside of the rounds to come stays.
copy_model-other :
    (mem : Memory) (count i k : ℕ) (model : List ℕ)
    → k < i
    → get_or (copy_model mem count i model) k 0 ≡ get_or model k 0
unfolding copy_model
copy_model-other mem zero i k model before = refl
copy_model-other mem (suc count) i k model before =
    copy_model-other mem count (i + 2) k _ (omega arith)
    ∙ get_or-set_ne (set model i _) (i + 1) k _ 0 (omega arith)
    ∙ get_or-set_ne model i k _ 0 (omega arith)

abbrev two_set : List ℕ → (i a b : ℕ) → List ℕ
two_set model i a b = set (set model i a) (i + 1) b

length-two_set : (model : List ℕ) (i a b : ℕ) → length (two_set model i a b) ≡ length model
length-two_set model i a b = length-set (set model i a) (i + 1) b ∙ length-set model i a

copy_model-suc :
    (mem : Memory) (count i : ℕ) (model : List ℕ)
    → copy_model mem (suc count) i model
      ≡ copy_model mem count (i + 2) (two_set model i (mem (54 + (i + 1))) (mem (54 + i)))
unfolding copy_model
copy_model-suc mem count i model = rw (device_data_read.0) refl

-- Round `j` from place `i` on.
copy_model-pair :
    (mem : Memory) (count i j : ℕ) (model : List ℕ)
    → j < count
    → i + count * 2 < length model
    → (get_or (copy_model mem count i model) (i + j * 2) 0 ≡ mem (54 + (i + j * 2 + 1)))
      × (get_or (copy_model mem count i model) (i + j * 2 + 1) 0 ≡ mem (54 + (i + j * 2)))
copy_model-pair mem zero i j model here room = absurd (omega arith)
copy_model-pair mem (suc count) i zero model here room =
    let a = mem (54 + (i + 1)) in
    let b = mem (54 + i) in
    let start : i + 0 * 2 ≡ i = omega arith in
    rw (start, copy_model-suc mem count i model)
      (
        copy_model-other mem count (i + 2) i (two_set model i a b) (omega arith)
            ∙ get_or-set_ne (set model i a) (i + 1) i b 0 (omega arith)
            ∙ get_or-set_self model i a 0 (omega arith),
        copy_model-other mem count (i + 2) (i + 1) (two_set model i a b) (omega arith)
            ∙ get_or-set_self (set model i a) (i + 1) b 0 (omega (arith, length-set model i a)),
      )
copy_model-pair mem (suc count) i (suc j) model here room =
    let a = mem (54 + (i + 1)) in
    let b = mem (54 + i) in
    let next : i + suc j * 2 ≡ i + 2 + j * 2 = omega arith in
    rw (next, copy_model-suc mem count i model)
      (copy_model-pair mem count (i + 2) j (two_set model i a b) (omega arith)
        (omega (arith, length-two_set model i a b)))

module _ (w : ℕ → ℕ) (mem : Memory) (small : (k : ℕ) → w k < 2 ^ 16) (holds : HoldsWords w mem)
    (d : DriveInfo) (size : length d.model ≡ 41) where
  abbrev copied : List ℕ
  copied = copy_model mem 20 0 d.model

  model_at : (k : ℕ) → k < 40 → get_or (set copied 40 0) k 0 ≡ get_or copied k 0
  model_at k h = get_or-set_ne copied 40 k 0 0 (omega arith)

  first_of_pair : (j : ℕ) → j < 20 → get_or copied (j * 2) 0 ≡ w (27 + j) / 2 ^ 8
  first_of_pair j h =
      let start : 0 + j * 2 ≡ j * 2 = omega arith in
      let place : 54 + (j * 2 + 1) ≡ (27 + j) * 2 + 1 = omega arith in
      let pair = (copy_model-pair mem 20 0 j d.model h (omega arith)).0 in
      (rw start at pair) ∙ ap mem place ∙ high_byte w mem small holds (27 + j) (omega arith)

  second_of_pair : (j : ℕ) → j < 20 → get_or copied (j * 2 + 1) 0 ≡ w (27 + j) % 2 ^ 8
  second_of_pair j h =
      let start : 0 + j * 2 ≡ j * 2 = omega arith in
      let place : 54 + j * 2 ≡ (27 + j) * 2 = omega arith in
      let pair = (copy_model-pair mem 20 0 j d.model h (omega arith)).1 in
      (rw start at pair) ∙ ap mem place ∙ low_byte w mem small holds (27 + j) (omega arith)

  pub drive_of-IsFound : IsFound w (drive_of d mem)
  unfolding drive_of
  drive_of-IsFound =
      let (number, cylinders, heads, sectors, total) = device_data_read in
      record {
        online = refl;
        cylinders_lem = rw cylinders (load16-word w mem small holds 1 (omega arith));
        heads_lem = rw heads (load16-word w mem small holds 3 (omega arith));
        sectors_lem = rw sectors (load16-word w mem small holds 56 (omega arith));
        total_lem = rw total (
            omega (
              arith,
              load16-word w mem small holds 57 (omega arith),
              load16-word w mem small holds 58 (omega arith),
            ));
        model_first = λ j h. model_at (j * 2) (omega arith) ∙ first_of_pair j h;
        model_second = λ j h. model_at (j * 2 + 1) (omega arith) ∙ second_of_pair j h;
        model_end =
            get_or-set_self copied 40 0 0 (omega (arith, length-copy_model mem 20 0 d.model, size));
      }
