-- ===== src/Phy/Exact.antt =====
-- Which PHY commands the functions make, and what their parsers make of them.
use whad_lib.Prelude.{
  ℕ, ◌≡◌, ◌<◌, ◌%◌, ◌^◌, refl, ap, ap₂, ◌∙◌, Bool, true, false, some, if◌then◌else◌, success, arith,
}
use whad_lib.Protocol.Buffer.{Field}
use whad_lib.Protocol.Phy.{LoraParams, SchedResp, ScheduledPacket, PhyMessage}
use whad_lib.Protocol.Message.{Message}
use whad_lib.Phy.View.{PhyView, Holds, IsView}
use whad_lib.Phy.Parse.{
  set_ask_mod_parse, set_qpsk_mod_parse, set_lora_mod_parse, sniff_mode_parse, set_fsk_mod_parse,
  set_4fsk_mod_parse, set_gfsk_mod_parse, set_msk_mod_parse, set_freq_parse, set_datarate_parse,
  set_endianness_parse, set_tx_power_parse, set_packet_size_parse, jam_mode_parse,
  sched_packet_sent_parse, packet_scheduled_parse,
}
use whad_lib.Phy.{
  write, set_ask_mod, set_qpsk_mod, set_lora_mod, sniff_mode, set_fsk_mod, set_4fsk_mod,
  set_gfsk_mod, set_msk_mod, write_freq, set_datarate, set_endianness, set_tx_power,
  set_packet_size, jam_mode, sched_packet_sent, packet_scheduled,
}

-- The flag of an answer to a scheduling request, over the value left in the message.
abbrev flag : Bool → Bool → Field Bool
flag full old =
    if full
    then record { present = true; value = true }
    else record { present = false; value = old }

flag-read :
    (full old : Bool) → (if (flag full old).present then (flag full old).value else false) ≡ full
flag-read true old = refl
flag-read false old = refl

module _ (view : Message → PhyView) (reads : IsView view) where
  -- Whatever the message held before, the modulations, the frequency, the data rate, the endianness, the
  -- power, the size of packets, the modes and the identifier of a packet sent are read as they were
  -- written.
  pub commands-read :
      (m : Message) (value old : ℕ) (flag before : Bool) (lora lora_old : LoraParams)
      → (set_fsk_mod_parse view (set_fsk_mod (some m) value).1 (some old) ≡ (success, some value))
        × (set_4fsk_mod_parse view (set_4fsk_mod (some m) value).1 (some old)
            ≡ (success, some value))
        × (set_gfsk_mod_parse view (set_gfsk_mod (some m) value).1 (some old)
            ≡ (success, some value))
        × (set_msk_mod_parse view (set_msk_mod (some m) value).1 (some old) ≡ (success, some value))
        × (set_freq_parse view (write_freq (some m) value).1 (some old) ≡ (success, some value))
        × (set_datarate_parse view (set_datarate (some m) value).1 (some old)
            ≡ (success, some value))
        × (set_endianness_parse view (set_endianness (some m) value).1 (some old)
            ≡ (success, some value))
        × (set_tx_power_parse view (set_tx_power (some m) value).1 (some old)
            ≡ (success, some value))
        × (set_packet_size_parse view (set_packet_size (some m) value).1 (some old)
            ≡ (success, some value))
        × (jam_mode_parse view (jam_mode (some m) value).1 (some old) ≡ (success, some value))
        × (sched_packet_sent_parse view (sched_packet_sent (some m) value).1 (some old)
            ≡ (success, some value))
        × (set_ask_mod_parse view (set_ask_mod (some m) flag).1 (some before)
            ≡ (success, some flag))
        × (set_qpsk_mod_parse view (set_qpsk_mod (some m) flag).1 (some before)
            ≡ (success, some flag))
        × (sniff_mode_parse view (sniff_mode (some m) flag).1 (some before) ≡ (success, some flag))
        × (set_lora_mod_parse view (set_lora_mod (some m) lora).1 (some lora_old)
            ≡ (success, some lora))
  unfolding IsView Holds write set_ask_mod set_qpsk_mod sniff_mode set_lora_mod set_ask_mod_parse
      set_qpsk_mod_parse sniff_mode_parse set_lora_mod_parse set_fsk_mod set_4fsk_mod set_gfsk_mod
      set_msk_mod write_freq set_datarate set_endianness set_tx_power set_packet_size jam_mode
      sched_packet_sent set_fsk_mod_parse set_4fsk_mod_parse set_gfsk_mod_parse set_msk_mod_parse
      set_freq_parse set_datarate_parse set_endianness_parse set_tx_power_parse
      set_packet_size_parse jam_mode_parse sched_packet_sent_parse
  commands-read m value old flag before lora lora_old = (
    ap (λ c. (success, some c)) (reads (PhyMessage.mod_fsk value)),
    ap (λ c. (success, some c)) (reads (PhyMessage.mod_4fsk value)),
    ap (λ c. (success, some c)) (reads (PhyMessage.mod_gfsk value)),
    ap (λ c. (success, some c)) (reads (PhyMessage.mod_msk value)),
    ap (λ c. (success, some c)) (reads (PhyMessage.set_freq value)),
    ap (λ c. (success, some c)) (reads (PhyMessage.datarate value)),
    ap (λ c. (success, some c)) (reads (PhyMessage.endianness value)),
    ap (λ c. (success, some c)) (reads (PhyMessage.tx_power value)),
    ap (λ c. (success, some c)) (reads (PhyMessage.packet_size value)),
    ap (λ c. (success, some c)) (reads (PhyMessage.jam value)),
    ap (λ c. (success, some c)) (reads (PhyMessage.sched_pkt_sent value)),
    ap (λ b. (success, some b)) (reads (PhyMessage.mod_ask flag)),
    ap (λ b. (success, some b)) (reads (PhyMessage.mod_qpsk flag)),
    ap (λ (s : Field Bool). (success, some (if s.present then s.value else false)))
        (reads (PhyMessage.sniff (record { present = true; value = flag }))),
    ap (λ l. (success, some l)) (reads (PhyMessage.mod_lora lora)),
  )

  -- The answer to a scheduling request is read as it was given.
  pub packet_scheduled_exact :
      (m : Message) (id : ℕ) (full : Bool) (old : ScheduledPacket)
      → id < 256
      → packet_scheduled_parse view (packet_scheduled view (some m) id full).1 (some old)
        ≡ (success, some (record { id = id; full = full }))
  unfolding packet_scheduled packet_scheduled_parse IsView Holds
  packet_scheduled_exact m id full old small =
      ap
        (λ (r : SchedResp). (
          success,
          some
              (record { id = r.id % 2 ^ 8; full = if r.full.present then r.full.value else false }),
        ))
        (reads (
          PhyMessage.sched_pkt_rsp
            (record { id = id; full = flag full (view m).sched_pkt_rsp.full.value })))
      ∙ ap₂ (λ i f. (success, some (record { id = i; full = f }))) (omega arith)
          (flag-read full (view m).sched_pkt_rsp.full.value)
