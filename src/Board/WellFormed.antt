-- ===== src/Board/WellFormed.antt =====
-- What the validators of the Board domain ask of a message that crosses the C API, and what the domain
-- promises of it, which is more for one message.
use whad_lib.Prelude.{
  ℕ, zero, suc, ◌+◌, ◌≤◌, ◌<◌, ◌≡◌, ◌⊎◌, Bool, true, false, List, [], ◌∷◌, some, get_elem?, ℤ, pos,
  ◌≤ℤ◌,
}
use whad_lib.Protocol.Kind.{Kind}
use whad_lib.Protocol.Payload.{Payload}
use whad_lib.Protocol.Pins.{LeaseToken}
use whad_lib.Protocol.Sensors.{SensorDescriptor}
use whad_lib.Protocol.Inputs.{ProfileMapping, RemoteProfile}
use whad_lib.Protocol.Runtime.{
  RuntimeOperation, update, open_pairing_window, clear_bonds, unknown_operation,
}

-- The value of an enumeration with the enumerators 0 to `max`.
abbrev pub InEnum : ℤ → ℕ → Type 0
InEnum value max = (pos 0 ≤ℤ value) × (value ≤ℤ pos max)

-- A zero character stands among the first `capacity` characters.
abbrev pub IsText : List ℕ → ℕ → Type 0
IsText text capacity = (i : ℕ) × (i < capacity) × (get_elem? text i ≡ some 0)

-- A chunk lies within its total, if a total is given.
abbrev pub InSpan : ℕ → ℕ → ℕ → Type 0
InSpan offset count total = (total ≡ 0) ⊎ (offset + count ≤ total)

abbrev pub IsLease : Bool → LeaseToken → Type 0
IsLease false l = Unit
IsLease true l = InEnum l.resource 6

abbrev pub AllTexts : ℕ → List (List ℕ) → Type 0
AllTexts zero names = Unit
AllTexts (suc count) [] = Unit
AllTexts (suc count) (name ∷ names) = IsText name 16 × AllTexts count names

abbrev pub IsDescriptor : Bool → SensorDescriptor → Type 0
IsDescriptor false d = Unit
IsDescriptor true d =
    IsText d.name 32
    × (IsText d.unit 32
        × ((d.component_names_count ≤ 10)
            × (AllTexts d.component_names_count d.component_names
                × (d.supported_rates_millihz_count ≤ 8))))

abbrev pub AllMappings : ℕ → List ProfileMapping → Type 0
AllMappings zero ms = Unit
AllMappings (suc count) [] = Unit
AllMappings (suc count) (m ∷ ms) = (InEnum m.source 5 × InEnum m.action 4) × AllMappings count ms

abbrev pub IsProfile : Bool → RemoteProfile → Type 0
IsProfile false p = Unit
IsProfile true p =
    IsText p.name 32 × ((p.mappings_count ≤ 16) × AllMappings p.mappings_count p.mappings)

abbrev pub IsRuntimeOperation : RuntimeOperation → Type 0
IsRuntimeOperation (update u) = (u.has_persisted_runtime ≡ false) ⊎ InEnum u.persisted_runtime 2
IsRuntimeOperation (open_pairing_window _) = Unit
IsRuntimeOperation (clear_bonds _) = Unit
IsRuntimeOperation (unknown_operation _) = ⊥

-- The resource of a release is checked only where no lease is given.
abbrev pub IsRelease : Bool → LeaseToken → ℤ → Type 0
IsRelease true l resource = InEnum l.resource 6
IsRelease false l resource = InEnum resource 6

-- What the validator of a message asks.
abbrev pub WellFormed : (k : Kind) → Payload k → Type 0
WellFormed Kind.set_output v = InEnum v.target 5 × IsLease v.has_lease v.lease
WellFormed Kind.configure_input v = InEnum v.mode 4
WellFormed Kind.i2c_transfer v =
    (v.write_data.size ≤ 512) × ((v.read_length ≤ 512) × IsLease v.has_lease v.lease)
WellFormed Kind.gpio_configure v =
    InEnum v.direction 2 × (InEnum v.pull 3 × IsLease v.has_lease v.lease)
WellFormed Kind.gpio_read v = IsLease v.has_lease v.lease
WellFormed Kind.gpio_write v = IsLease v.has_lease v.lease
WellFormed Kind.spi_transfer v =
    InEnum v.mode 4
    × ((v.tx_data.size ≤ 512) × ((v.read_length ≤ 512) × IsLease v.has_lease v.lease))
WellFormed Kind.storage_read_log v = v.max_bytes ≤ 900
WellFormed Kind.set_runtime_config v = IsRuntimeOperation v.operation
WellFormed Kind.set_runtime_mode v = InEnum v.runtime 2
WellFormed Kind.remote_profile_set v = IsProfile v.has_profile v.profile
WellFormed Kind.release_pin v = IsRelease v.has_lease v.lease v.resource
WellFormed Kind.raw_pcm_diagnostics v = v.chunk_size ≤ 800
WellFormed Kind.command_result v = InEnum v.command 27 × (InEnum v.result 14 × IsText v.detail 96)
WellFormed Kind.board_info v =
    IsText v.board_name 32
    × (IsText v.hardware_revision 32
        × (IsText v.firmware_version 32
            × (IsText v.protocol_variant 32
                × ((v.device_id.size ≤ 16) × InEnum v.active_runtime 2))))
WellFormed Kind.sensor_descriptor v = IsDescriptor v.has_descriptor v.descriptor
WellFormed Kind.sensor_sample v = (v.values_count ≤ 10) × (v.status < 128)
WellFormed Kind.calibration v = v.calibration_data.size ≤ 128
WellFormed Kind.input_state v = InEnum v.gesture 6 × InEnum v.mode 4
WellFormed Kind.i2c_result v =
    InEnum v.result 14
    × ((v.read_data.size ≤ 512) × ((v.bytes_read ≤ v.read_data.size) × IsLease v.has_lease v.lease))
WellFormed Kind.gpio_configured v = InEnum v.result 14 × IsLease v.has_lease v.lease
WellFormed Kind.gpio_value v = InEnum v.result 14 × IsLease v.has_lease v.lease
WellFormed Kind.adc_value v = InEnum v.result 14
WellFormed Kind.spi_result v =
    InEnum v.result 14
    × ((v.rx_data.size ≤ 512) × ((v.bytes_read ≤ v.rx_data.size) × IsLease v.has_lease v.lease))
WellFormed Kind.storage_status v = InEnum v.state 4
WellFormed Kind.runtime_config v = InEnum v.active_runtime 2 × InEnum v.persisted_runtime 2
WellFormed Kind.remote_profile v = IsProfile v.has_profile v.profile
WellFormed Kind.audio_chunk v =
    InEnum v.result 14
    × ((v.pcm.size ≤ 800) × ((v.count ≤ v.pcm.size) × InSpan v.offset v.count v.total))
WellFormed Kind.input_event v = InEnum v.source 5 × InEnum v.action 4
WellFormed Kind.gesture_event v = InEnum v.gesture 6
WellFormed Kind.log_chunk v =
    InEnum v.result 14
    × ((v.chunk_data.size ≤ 900)
        × ((v.count ≤ v.chunk_data.size) × InSpan v.offset v.count v.total))
WellFormed Kind.board_status v =
    InEnum v.code 8
    × (InEnum v.result 14
        × (InEnum v.resource 6 × ((v.progress_per_mille ≤ 1000) × IsText v.detail 96)))
WellFormed k v = Unit

-- What the domain promises: of a release with a lease, both its own resource and that of the lease.
abbrev pub IsPromised : (k : Kind) → Payload k → Type 0
IsPromised Kind.release_pin v = InEnum v.resource 6 × IsLease v.has_lease v.lease
IsPromised k v = WellFormed k v

-- A release with a good lease, whose own resource is none.
abbrev pub IsUnchecked : (k : Kind) → Payload k → Type 0
IsUnchecked Kind.release_pin v =
    (v.has_lease ≡ true) × (InEnum v.lease.resource 6 × (¬ (InEnum v.resource 6)))
IsUnchecked k v = ⊥

-- The offset and the count of a chunk are 32-bit numbers.
abbrev pub In32Bits : (k : Kind) → Payload k → Type 0
In32Bits Kind.audio_chunk v = (v.offset < 4294967296) × (v.count < 4294967296)
In32Bits Kind.log_chunk v = (v.offset < 4294967296) × (v.count < 4294967296)
In32Bits k v = Unit
