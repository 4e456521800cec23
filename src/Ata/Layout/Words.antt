-- ===== src/Ata/Layout/Words.antt =====
-- kernel/drivers/block/ata.h: the first half of `identify_device_data_t`.
use aeon_486_os.Base.{List, [], ◌∷◌}
use aeon_486_os.Ata.Layout.{bits, bytes, Member, part, struct}

-- Words 0 to 75.
unfoldable pub words_0_75 : List Member
words_0_75 =
    struct "general_configuration" (
      ("reserved1", bits 16 1)
      ∷ ("retired3", bits 16 1)
      ∷ ("response_incomplete", bits 16 1)
      ∷ ("retired2", bits 16 3)
      ∷ ("fixed_device", bits 16 1)
      ∷ ("removable_media", bits 16 1)
      ∷ ("retired1", bits 16 7)
      ∷ ("device_type", bits 16 1)
      ∷ [])
    ∷ part "num_cylinders" (bytes 2 2)
    ∷ part "specific_configuration" (bytes 2 2)
    ∷ part "num_heads" (bytes 2 2)
    ∷ part "retired1" (bytes 2 4)
    ∷ part "num_sectors_per_track" (bytes 2 2)
    ∷ part "vendor_unique1" (bytes 2 6)
    ∷ part "serial_number" (bytes 1 20)
    ∷ part "retired2" (bytes 2 4)
    ∷ part "obsolete1" (bytes 2 2)
    ∷ part "firmware_revision" (bytes 1 8)
    ∷ part "model_number" (bytes 1 40)
    ∷ part "maximum_block_transfer" (bytes 1 1)
    ∷ part "vendor_unique2" (bytes 1 1)
    ∷ struct "trusted_computing" (("feature_supported", bits 16 1) ∷ ("reserved", bits 16 15) ∷ [])
    ∷ struct "capabilities" (
        ("current_long_physical_sector_alignment", bits 8 2)
        ∷ ("reserved_byte49", bits 8 6)
        ∷ ("dma_supported", bits 8 1)
        ∷ ("lba_supported", bits 8 1)
        ∷ ("iordy_disable", bits 8 1)
        ∷ ("iordy_supported", bits 8 1)
        ∷ ("reserved1", bits 8 1)
        ∷ ("standby_timer_support", bits 8 1)
        ∷ ("reserved2", bits 8 2)
        ∷ ("reserved_word50", bytes 2 2)
        ∷ [])
    ∷ part "obsolete_words51" (bytes 2 4)
    ∷ part "translation_fields_valid" (bits 16 3)
    ∷ part "reserved3" (bits 16 5)
    ∷ part "free_fall_control_sensitivity" (bits 16 8)
    ∷ part "number_of_current_cylinders" (bytes 2 2)
    ∷ part "number_of_current_heads" (bytes 2 2)
    ∷ part "current_sectors_per_track" (bytes 2 2)
    ∷ part "current_sector_capacity" (bytes 4 4)
    ∷ part "current_multi_sector_setting" (bytes 1 1)
    ∷ part "multi_sector_setting_valid" (bits 8 1)
    ∷ part "reserved_byte59" (bits 8 3)
    ∷ part "sanitize_feature_supported" (bits 8 1)
    ∷ part "crypto_scramble_ext_command_supported" (bits 8 1)
    ∷ part "overwrite_ext_command_supported" (bits 8 1)
    ∷ part "block_erase_ext_command_supported" (bits 8 1)
    ∷ part "user_addressable_sectors" (bytes 4 4)
    ∷ part "obsolete_word62" (bytes 2 2)
    ∷ part "multi_word_dma_support" (bits 16 8)
    ∷ part "multi_word_dma_active" (bits 16 8)
    ∷ part "advanced_pio_modes" (bits 16 8)
    ∷ part "reserved_byte64" (bits 16 8)
    ∷ part "minimum_mw_xfer_cycle_time" (bytes 2 2)
    ∷ part "recommended_mw_xfer_cycle_time" (bytes 2 2)
    ∷ part "minimum_pio_cycle_time" (bytes 2 2)
    ∷ part "minimum_pio_cycle_time_iordy" (bytes 2 2)
    ∷ struct "additional_supported" (
        ("zoned_capabilities", bits 16 2)
        ∷ ("non_volatile_write_cache", bits 16 1)
        ∷ ("extended_user_addressable_sectors_supported", bits 16 1)
        ∷ ("device_encrypts_all_user_data", bits 16 1)
        ∷ ("read_zero_after_trim_supported", bits 16 1)
        ∷ ("optional28_bit_commands_supported", bits 16 1)
        ∷ ("ieee1667", bits 16 1)
        ∷ ("download_microcode_dma_supported", bits 16 1)
        ∷ ("set_max_set_password_unlock_dma_supported", bits 16 1)
        ∷ ("write_buffer_dma_supported", bits 16 1)
        ∷ ("read_buffer_dma_supported", bits 16 1)
        ∷ ("device_config_identify_set_dma_supported", bits 16 1)
        ∷ ("lpsaerc_supported", bits 16 1)
        ∷ ("deterministic_read_after_trim_supported", bits 16 1)
        ∷ ("c_fast_spec_supported", bits 16 1)
        ∷ [])
    ∷ part "reserved_words70" (bytes 2 10)
    ∷ part "queue_depth" (bits 16 5)
    ∷ part "reserved_word75" (bits 16 11)
    ∷ []

-- Words 76 to 81.
unfoldable pub words_76_81 : List Member
words_76_81 =
    struct "serial_ata_capabilities" (
      ("reserved0", bits 16 1)
      ∷ ("sata_gen1", bits 16 1)
      ∷ ("sata_gen2", bits 16 1)
      ∷ ("sata_gen3", bits 16 1)
      ∷ ("reserved1", bits 16 4)
      ∷ ("ncq", bits 16 1)
      ∷ ("hipm", bits 16 1)
      ∷ ("phy_events", bits 16 1)
      ∷ ("ncq_unload", bits 16 1)
      ∷ ("ncq_priority", bits 16 1)
      ∷ ("host_auto_ps", bits 16 1)
      ∷ ("device_auto_ps", bits 16 1)
      ∷ ("read_log_dma", bits 16 1)
      ∷ ("reserved2", bits 16 1)
      ∷ ("current_speed", bits 16 3)
      ∷ ("ncq_streaming", bits 16 1)
      ∷ ("ncq_queue_mgmt", bits 16 1)
      ∷ ("ncq_receive_send", bits 16 1)
      ∷ ("devsl_pto_reduced_pwr_state", bits 16 1)
      ∷ ("reserved3", bits 16 8)
      ∷ [])
    ∷ struct "serial_ata_features_supported" (
        ("reserved0", bits 16 1)
        ∷ ("non_zero_offsets", bits 16 1)
        ∷ ("dma_setup_auto_activate", bits 16 1)
        ∷ ("dipm", bits 16 1)
        ∷ ("in_order_data", bits 16 1)
        ∷ ("hardware_feature_control", bits 16 1)
        ∷ ("software_settings_preservation", bits 16 1)
        ∷ ("ncq_autosense", bits 16 1)
        ∷ ("devslp", bits 16 1)
        ∷ ("hybrid_information", bits 16 1)
        ∷ ("reserved1", bits 16 6)
        ∷ [])
    ∷ struct "serial_ata_features_enabled" (
        ("reserved0", bits 16 1)
        ∷ ("non_zero_offsets", bits 16 1)
        ∷ ("dma_setup_auto_activate", bits 16 1)
        ∷ ("dipm", bits 16 1)
        ∷ ("in_order_data", bits 16 1)
        ∷ ("hardware_feature_control", bits 16 1)
        ∷ ("software_settings_preservation", bits 16 1)
        ∷ ("device_auto_ps", bits 16 1)
        ∷ ("devslp", bits 16 1)
        ∷ ("hybrid_information", bits 16 1)
        ∷ ("reserved1", bits 16 6)
        ∷ [])
    ∷ part "major_revision" (bytes 2 2)
    ∷ part "minor_revision" (bytes 2 2)
    ∷ []
