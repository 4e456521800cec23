-- ===== src/Ata/Layout/Commands.antt =====
-- kernel/drivers/block/ata.h: what `identify_device_data_t` says of the commands.
use aeon_486_os.Base.{List, [], ◌∷◌}
use aeon_486_os.Ata.Layout.{bits, bytes, Member, part, struct}

-- Words 82 to 87.
unfoldable pub words_82_87 : List Member
words_82_87 =
    struct "command_set_support" (
      ("smart_commands", bits 16 1)
      ∷ ("security_mode", bits 16 1)
      ∷ ("removable_media_feature", bits 16 1)
      ∷ ("power_management", bits 16 1)
      ∷ ("reserved1", bits 16 1)
      ∷ ("write_cache", bits 16 1)
      ∷ ("look_ahead", bits 16 1)
      ∷ ("release_interrupt", bits 16 1)
      ∷ ("service_interrupt", bits 16 1)
      ∷ ("device_reset", bits 16 1)
      ∷ ("host_protected_area", bits 16 1)
      ∷ ("obsolete1", bits 16 1)
      ∷ ("write_buffer", bits 16 1)
      ∷ ("read_buffer", bits 16 1)
      ∷ ("nop", bits 16 1)
      ∷ ("obsolete2", bits 16 1)
      ∷ ("download_microcode", bits 16 1)
      ∷ ("dma_queued", bits 16 1)
      ∷ ("cfa", bits 16 1)
      ∷ ("advanced_pm", bits 16 1)
      ∷ ("msn", bits 16 1)
      ∷ ("power_up_in_standby", bits 16 1)
      ∷ ("manual_power_up", bits 16 1)
      ∷ ("reserved2", bits 16 1)
      ∷ ("set_max", bits 16 1)
      ∷ ("acoustics", bits 16 1)
      ∷ ("big_lba", bits 16 1)
      ∷ ("device_config_overlay", bits 16 1)
      ∷ ("flush_cache", bits 16 1)
      ∷ ("flush_cache_ext", bits 16 1)
      ∷ ("word_valid83", bits 16 2)
      ∷ ("smart_error_log", bits 16 1)
      ∷ ("smart_self_test", bits 16 1)
      ∷ ("media_serial_number", bits 16 1)
      ∷ ("media_card_pass_through", bits 16 1)
      ∷ ("streaming_feature", bits 16 1)
      ∷ ("gp_logging", bits 16 1)
      ∷ ("write_fua", bits 16 1)
      ∷ ("write_queued_fua", bits 16 1)
      ∷ ("wwn64_bit", bits 16 1)
      ∷ ("urg_read_stream", bits 16 1)
      ∷ ("urg_write_stream", bits 16 1)
      ∷ ("reserved_for_tech_report", bits 16 2)
      ∷ ("idle_with_unload_feature", bits 16 1)
      ∷ ("word_valid", bits 16 2)
      ∷ [])
    ∷ struct "command_set_active" (
        ("smart_commands", bits 16 1)
        ∷ ("security_mode", bits 16 1)
        ∷ ("removable_media_feature", bits 16 1)
        ∷ ("power_management", bits 16 1)
        ∷ ("reserved1", bits 16 1)
        ∷ ("write_cache", bits 16 1)
        ∷ ("look_ahead", bits 16 1)
        ∷ ("release_interrupt", bits 16 1)
        ∷ ("service_interrupt", bits 16 1)
        ∷ ("device_reset", bits 16 1)
        ∷ ("host_protected_area", bits 16 1)
        ∷ ("obsolete1", bits 16 1)
        ∷ ("write_buffer", bits 16 1)
        ∷ ("read_buffer", bits 16 1)
        ∷ ("nop", bits 16 1)
        ∷ ("obsolete2", bits 16 1)
        ∷ ("download_microcode", bits 16 1)
        ∷ ("dma_queued", bits 16 1)
        ∷ ("cfa", bits 16 1)
        ∷ ("advanced_pm", bits 16 1)
        ∷ ("msn", bits 16 1)
        ∷ ("power_up_in_standby", bits 16 1)
        ∷ ("manual_power_up", bits 16 1)
        ∷ ("reserved2", bits 16 1)
        ∷ ("set_max", bits 16 1)
        ∷ ("acoustics", bits 16 1)
        ∷ ("big_lba", bits 16 1)
        ∷ ("device_config_overlay", bits 16 1)
        ∷ ("flush_cache", bits 16 1)
        ∷ ("flush_cache_ext", bits 16 1)
        ∷ ("reserved3", bits 16 1)
        ∷ ("words119_120_valid", bits 16 1)
        ∷ ("smart_error_log", bits 16 1)
        ∷ ("smart_self_test", bits 16 1)
        ∷ ("media_serial_number", bits 16 1)
        ∷ ("media_card_pass_through", bits 16 1)
        ∷ ("streaming_feature", bits 16 1)
        ∷ ("gp_logging", bits 16 1)
        ∷ ("write_fua", bits 16 1)
        ∷ ("write_queued_fua", bits 16 1)
        ∷ ("wwn64_bit", bits 16 1)
        ∷ ("urg_read_stream", bits 16 1)
        ∷ ("urg_write_stream", bits 16 1)
        ∷ ("reserved_for_tech_report", bits 16 2)
        ∷ ("idle_with_unload_feature", bits 16 1)
        ∷ ("reserved4", bits 16 2)
        ∷ [])
    ∷ []

-- Words 88 to 127.
unfoldable pub words_88_127 : List Member
words_88_127 =
    part "ultra_dma_support" (bits 16 8)
    ∷ part "ultra_dma_active" (bits 16 8)
    ∷ struct "normal_security_erase_unit"
        (("time_required", bits 16 15) ∷ ("extended_time_reported", bits 16 1) ∷ [])
    ∷ struct "enhanced_security_erase_unit"
        (("time_required", bits 16 15) ∷ ("extended_time_reported", bits 16 1) ∷ [])
    ∷ part "current_apm_level" (bits 16 8)
    ∷ part "reserved_word91" (bits 16 8)
    ∷ part "master_password_id" (bytes 2 2)
    ∷ part "hardware_reset_result" (bytes 2 2)
    ∷ part "current_acoustic_value" (bits 16 8)
    ∷ part "recommended_acoustic_value" (bits 16 8)
    ∷ part "stream_min_request_size" (bytes 2 2)
    ∷ part "streaming_transfer_time_dma" (bytes 2 2)
    ∷ part "streaming_access_latency_dmapio" (bytes 2 2)
    ∷ part "streaming_perf_granularity" (bytes 4 4)
    ∷ part "max48_bit_lba" (bytes 4 8)
    ∷ part "streaming_transfer_time" (bytes 2 2)
    ∷ part "dsm_cap" (bytes 2 2)
    ∷ struct "physical_logical_sector_size" (
        ("logical_sectors_per_physical_sector", bits 16 4)
        ∷ ("reserved0", bits 16 8)
        ∷ ("logical_sector_longer_than256_words", bits 16 1)
        ∷ ("multiple_logical_sectors_per_physical_sector", bits 16 1)
        ∷ ("reserved1", bits 16 2)
        ∷ [])
    ∷ part "inter_seek_delay" (bytes 2 2)
    ∷ part "world_wide_name" (bytes 2 8)
    ∷ part "reserved_for_world_wide_name128" (bytes 2 8)
    ∷ part "reserved_for_tlc_technical_report" (bytes 2 2)
    ∷ part "words_per_logical_sector" (bytes 2 4)
    ∷ struct "command_set_support_ext" (
        ("reserved_for_drq_technical_report", bits 16 1)
        ∷ ("write_read_verify", bits 16 1)
        ∷ ("write_uncorrectable_ext", bits 16 1)
        ∷ ("read_write_log_dma_ext", bits 16 1)
        ∷ ("download_microcode_mode3", bits 16 1)
        ∷ ("freefall_control", bits 16 1)
        ∷ ("sense_data_reporting", bits 16 1)
        ∷ ("extended_power_conditions", bits 16 1)
        ∷ ("reserved0", bits 16 6)
        ∷ ("word_valid", bits 16 2)
        ∷ [])
    ∷ struct "command_set_active_ext" (
        ("reserved_for_drq_technical_report", bits 16 1)
        ∷ ("write_read_verify", bits 16 1)
        ∷ ("write_uncorrectable_ext", bits 16 1)
        ∷ ("read_write_log_dma_ext", bits 16 1)
        ∷ ("download_microcode_mode3", bits 16 1)
        ∷ ("freefall_control", bits 16 1)
        ∷ ("sense_data_reporting", bits 16 1)
        ∷ ("extended_power_conditions", bits 16 1)
        ∷ ("reserved0", bits 16 6)
        ∷ ("reserved1", bits 16 2)
        ∷ [])
    ∷ part "reserved_for_expanded_support_and_active" (bytes 2 12)
    ∷ part "msn_support" (bits 16 2)
    ∷ part "reserved_word127" (bits 16 14)
    ∷ []

-- Words 128 to 255.
unfoldable pub words_128_255 : List Member
words_128_255 =
    struct "security_status" (
      ("security_supported", bits 16 1)
      ∷ ("security_enabled", bits 16 1)
      ∷ ("security_locked", bits 16 1)
      ∷ ("security_frozen", bits 16 1)
      ∷ ("security_count_expired", bits 16 1)
      ∷ ("enhanced_security_erase_supported", bits 16 1)
      ∷ ("reserved0", bits 16 2)
      ∷ ("security_level", bits 16 1)
      ∷ ("reserved1", bits 16 7)
      ∷ [])
    ∷ part "reserved_word129" (bytes 2 62)
    ∷ struct "cfa_power_mode1" (
        ("maximum_current_in_ma", bits 16 12)
        ∷ ("cfa_power_mode_1disabled", bits 16 1)
        ∷ ("cfa_power_mode1_required", bits 16 1)
        ∷ ("reserved0", bits 16 1)
        ∷ ("word160_supported", bits 16 1)
        ∷ [])
    ∷ part "reserved_for_cfa_word161" (bytes 2 14)
    ∷ part "nominal_form_factor" (bits 16 4)
    ∷ part "reserved_word168" (bits 16 12)
    ∷ struct "data_set_management_feature"
        (("supports_trim", bits 16 1) ∷ ("reserved0", bits 16 15) ∷ [])
    ∷ part "additional_product_id" (bytes 2 8)
    ∷ part "reserved_for_cfa_word174" (bytes 2 4)
    ∷ part "current_media_serial_number" (bytes 2 60)
    ∷ struct "sct_command_transport" (
        ("supported", bits 16 1)
        ∷ ("reserved0", bits 16 1)
        ∷ ("write_same_supported", bits 16 1)
        ∷ ("error_recovery_control_supported", bits 16 1)
        ∷ ("feature_control_supported", bits 16 1)
        ∷ ("data_tables_supported", bits 16 1)
        ∷ ("reserved1", bits 16 6)
        ∷ ("vendor_specific", bits 16 4)
        ∷ [])
    ∷ part "reserved_word207" (bytes 2 4)
    ∷ struct "block_alignment" (
        ("alignment_of_logical_within_physical", bits 16 14)
        ∷ ("word209_supported", bits 16 1)
        ∷ ("reserved0", bits 16 1)
        ∷ [])
    ∷ part "write_read_verify_sector_count_mode3_only" (bytes 2 4)
    ∷ part "write_read_verify_sector_count_mode2_only" (bytes 2 4)
    ∷ struct "nv_cache_capabilities" (
        ("nv_cache_power_mode_enabled", bits 16 1)
        ∷ ("reserved0", bits 16 3)
        ∷ ("nv_cache_feature_set_enabled", bits 16 1)
        ∷ ("reserved1", bits 16 3)
        ∷ ("nv_cache_power_mode_version", bits 16 4)
        ∷ ("nv_cache_feature_set_version", bits 16 4)
        ∷ [])
    ∷ part "nv_cache_size_lsw" (bytes 2 2)
    ∷ part "nv_cache_size_msw" (bytes 2 2)
    ∷ part "nominal_media_rotation_rate" (bytes 2 2)
    ∷ part "reserved_word218" (bytes 2 2)
    ∷ struct "nv_cache_options" (
        ("nv_cache_estimated_time_to_spin_up_in_seconds", bytes 1 1) ∷ ("reserved", bytes 1 1) ∷ [])
    ∷ part "write_read_verify_sector_count_mode" (bits 16 8)
    ∷ part "reserved_word220" (bits 16 8)
    ∷ part "reserved_word221" (bytes 2 2)
    ∷ struct "transport_major_version"
        (("major_version", bits 16 12) ∷ ("transport_type", bits 16 4) ∷ [])
    ∷ part "transport_minor_version" (bytes 2 2)
    ∷ part "reserved_word224" (bytes 2 12)
    ∷ part "extended_number_of_user_addressable_sectors" (bytes 4 8)
    ∷ part "min_blocks_per_download_microcode_mode03" (bytes 2 2)
    ∷ part "max_blocks_per_download_microcode_mode03" (bytes 2 2)
    ∷ part "reserved_word236" (bytes 2 38)
    ∷ part "signature" (bits 16 8)
    ∷ part "check_sum" (bits 16 8)
    ∷ []
