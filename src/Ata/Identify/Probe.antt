-- ===== src/Ata/Identify/Probe.antt =====
-- `ata_probe` and `ata_init`: all four drives, and the block that holds what is known of them.
use aeon_486_os.Base.{
  ℕ, ◌+◌, ◌*◌, ◌/◌, ◌<◌, ◌≡◌, ◌≢◌, ◌⊎◌, refl, arith, ◌∙◌, ap, sym, subst, length, inl, inr, ok,
  panic, out_of_physical_memory, out_of_page_space,
}
use aeon_486_os.Platform.Hal.{Trace, Device, Message, kprintf}
use aeon_486_os.Memory.Paging.{page_count_of, kernel_page_tables_len}
use aeon_486_os.Memory.Paging.Find.{IsFreeRun}
use aeon_486_os.Memory.Allocator.{Kernel}
use aeon_486_os.Memory.Allocator.Kmalloc.{IsValid, IsTaken, kmalloc_small}
use aeon_486_os.Memory.Allocator.Bitmap.{used}
use aeon_486_os.Ata.{ready, ata_primary_io, ata_secondary_io}
use aeon_486_os.Ata.Layout.{struct_size, end_of, start_of, struct_align, align_of, width_of_part}
use aeon_486_os.Ata.Sector.{base_of, word_of, after_words}
use aeon_486_os.Ata.Identify.{
  AtaInfo, DriveInfo, no_drive, ata_identify, ata_probe, ata_init, ata_info_size, AtaStart,
}
use aeon_486_os.Ata.Identify.Found.{IsFound}
use aeon_486_os.Ata.Identify.Ready.{IsPresent, ata_identify-ready}
use aeon_486_os.Ata.Identify.Other.{ata_identify-other}

-- The drive is what some 256 words of its bus say.
abbrev pub IsKnown : Device → AtaInfo → (bus drive : ℕ) → Type 0
IsKnown device info bus drive =
    (start : Trace) × IsFound (word_of device start (base_of bus)) (info bus drive)

-- All four drives.
pub record AllKnown (device : Device) (info : AtaInfo) : Type 0 where
  pub primary_master : IsKnown device info 0 0
  pub primary_slave : IsKnown device info 0 1
  pub secondary_master : IsKnown device info 1 0
  pub secondary_slave : IsKnown device info 1 1

IsKnown-same :
    (device : Device) (info later : AtaInfo) (bus drive : ℕ)
    → later bus drive ≡ info bus drive
    → IsKnown device info bus drive
    → IsKnown device later bus drive
IsKnown-same device info later bus drive same (start, found) =
    (start, subst (IsFound (word_of device start (base_of bus))) (sym same) found)

abbrev model_length : DriveInfo → ℕ
model_length d = length d.model

one_zero : ◌≢◌ {A = ℕ} 1 0
one_zero e = omega arith

zero_one : ◌≢◌ {A = ℕ} 0 1
zero_one e = omega arith

pub ata_info_size-lt : ata_info_size < 4096
unfolding ata_info_size struct_size end_of start_of struct_align align_of width_of_part
ata_info_size-lt = omega arith

module _ (fuel bound : ℕ) (device : Device) (first : IsPresent device (ata_primary_io + 7) bound)
    (second : IsPresent device (ata_secondary_io + 7) bound) (enough : bound < fuel) where
  -- One call: the drive that it finds, and all others as before.
  identified :
      (info : AtaInfo) (trace : Trace) (bus drive : ℕ)
      → IsPresent device (base_of bus + 7) bound
      → length (info bus drive).model ≡ 41
      → (found : AtaInfo) × (after : Trace) × (ata_identify fuel device info trace bus drive
          ≡ ready (found, after))
        × IsKnown device found bus drive
        × ((b e : ℕ) → (b ≢ bus) ⊎ (e ≢ drive) → found b e ≡ info b e)
  identified info trace bus drive present size =
      let (found, start, runs, is_found) =
        ata_identify-ready fuel device info trace bus drive bound present size enough in
      let after = after_words device start (base_of bus) 256 in
      (
        found,
        after,
        runs,
        (start, is_found),
        λ b e other. ata_identify-other device info bus drive b e other fuel trace after found runs,
      )

  -- `ata_probe` ends and knows all four drives, if both buses answer, are ready once `bound` events
  -- have been, and the fuel is more than `bound`.
  pub ata_probe-ready :
      (trace : Trace)
      → (found : AtaInfo) × (after : Trace) × (ata_probe fuel device (λ bus drive. no_drive) trace
          ≡ ready (found, after))
        × AllKnown device found
  unfolding ata_probe
  ata_probe-ready trace =
      let empty : AtaInfo = λ bus drive. no_drive in
      let (f1, t1, r1, k1, o1) = identified empty trace 0 0 first refl in
      let (f2, t2, r2, k2, o2) =
        identified f1 t1 0 1 first (ap model_length (o1 0 1 (inr one_zero))) in
      let (f3, t3, r3, k3, o3) =
        identified f2 t2 1 0 second
          (ap model_length (o2 1 0 (inl one_zero) ∙ o1 1 0 (inl one_zero))) in
      let (f4, t4, r4, k4, o4) =
        identified f3 t3 1 1 second (
          ap model_length
            (o3 1 1 (inr one_zero) ∙ o2 1 1 (inl one_zero) ∙ o1 1 1 (inl one_zero))) in
      (
        f4,
        t4,
        rw (r1, r2, r3, r4) refl,
        record {
          primary_master =
              IsKnown-same device f1 f4 0 0
                (o4 0 0 (inl zero_one) ∙ o3 0 0 (inl zero_one) ∙ o2 0 0 (inr zero_one)) k1;
          primary_slave =
              IsKnown-same device f2 f4 0 1 (o4 0 1 (inl zero_one) ∙ o3 0 1 (inl zero_one)) k2;
          secondary_master = IsKnown-same device f3 f4 1 0 (o4 1 0 (inr zero_one)) k3;
          secondary_slave = k4;
        },
      )

  -- With the same conditions and on a valid allocator, `ata_init` takes the first free block of memory
  -- and then knows all four drives; or it stops in `kmalloc`, for want of memory, with all blocks that
  -- the search looks at taken, or for want of pages, with no unused page ahead of the last.
  pub ata_init-ready :
      (kernel : Kernel) (trace : Trace)
      → IsValid kernel
      → ((ata_init fuel device kernel trace ≡ panic out_of_physical_memory)
          × ((c : ℕ)
              → c < kernel.allocator.block_count / 32 * 32
              → used kernel.allocator.mem_map c ≡ 1))
        ⊎ ((ata_init fuel device kernel trace ≡ panic out_of_page_space)
            × ((i : ℕ)
                → i + page_count_of ata_info_size < kernel_page_tables_len
                → ¬ IsFreeRun kernel.table (page_count_of ata_info_size) i))
        ⊎ ((start : AtaStart) × (b : ℕ) × (found : AtaInfo) × (after : Trace) × (ata_init fuel
                device kernel trace
              ≡ ok start)
            × ((c : ℕ) → c < b → used kernel.allocator.mem_map c ≡ 1)
            × IsTaken kernel ata_info_size b start.g_ata_info start.kernel
            × (start.probed ≡ ready (found, after))
            × AllKnown device found)
  unfolding ata_init
  ata_init-ready kernel trace valid =
      let started = kprintf trace Message.initializing_ata in
      let (found, after, probed, known) = ata_probe-ready started in
      elim (kmalloc_small kernel ata_info_size valid ata_info_size-lt) [
        | inl (stopped, all_used) ↦ inl (rw stopped refl, all_used)
        | inr (b, _, _, _, inl (stopped, none)) ↦ inr (inl (rw stopped refl, none))
        | inr (b, _, _, before, inr (va, kernel', returns, taken)) ↦ inr (
            inr (
              record {
                kernel = kernel';
                g_ata_info = va;
                probed = ata_probe fuel device (λ bus drive. no_drive) started;
              },
              b,
              found,
              after,
              rw returns refl,
              before,
              taken,
              probed,
              known,
            ))
      ]
