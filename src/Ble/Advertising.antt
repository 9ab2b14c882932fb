-- ===== src/Ble/Advertising.antt =====
-- The advertising data of BLE messages, as they are set and read back.
use whad_lib.Prelude.{
  ℕ, suc, zero, ◌≡◌, ◌≤◌, ◌<◌, refl, ap, ap₂, ◌∙◌, List, take, replicate, length, some, ltb,
  if◌then◌else◌, success, arith, Status, Option, Gives, Bool-cases, ltb→lt, inl, inr, sym,
  Gives-subst, pos,
}
use whad_lib.Protocol.Buffer.{Buffer, copy_buffer, contents, IsFull}
use whad_lib.Protocol.Ble.{BleMessage, AdvMode}
use whad_lib.Protocol.Message.{Message}
use whad_lib.Radio.Laws.{copied_twice, copy_buffer_size}
use whad_lib.Ble.View.{BleView, Holds, IsView}
use whad_lib.Ble.Modes.{write_adv, write_adv_data, write_adv_mode, peripheral_mode}
use whad_lib.Ble.Parse.{read_adv, AdvParams, adv_mode_parse, peripheral_mode_parse}

-- What is read of advertising data of `n` bytes: from 31 bytes on, zeros.
unfoldable pub shown : ℕ → List ℕ → List ℕ
shown n bytes = if ltb n 31 then take n bytes else replicate 31 0

read_short :
    (src old : Buffer) → 0 < src.size → src.size < 31 → read_adv src old ≡ copy_buffer src old
unfolding read_adv copy_buffer
read_short src old some_bytes short = ground arith

read_full :
    (src old : Buffer)
    → src.size ≡ 31
    → read_adv src old ≡ record { size = 31; bytes = replicate 31 0 }
unfolding read_adv
read_full src old full = ground arith

-- The length that is written.
abbrev clip : ℕ → ℕ
clip n = if ltb 31 n then 31 else n

clip_short : (n : ℕ) → n < 31 → clip n ≡ n
clip_short n short = ground arith

clip_full : (n : ℕ) → 31 ≤ n → clip n ≡ 31
clip_full n full = ground arith

written_lem :
    (bytes : List ℕ) (n k : ℕ) (mid : Buffer)
    → 0 < n
    → clip n ≡ k
    → write_adv bytes (pos n) mid ≡ copy_buffer (record { size = k; bytes = bytes }) mid
unfolding write_adv
written_lem bytes zero k mid positive same = absurd (omega arith)
written_lem bytes (suc n) k mid positive same =
    ap (λ k. copy_buffer (record { size = k; bytes = bytes }) mid) same

adv_short :
    (bytes : List ℕ) (n : ℕ) (mid old : Buffer)
    → 0 < n
    → n < 31
    → n ≤ length bytes
    → contents (read_adv (write_adv bytes (pos n) mid) old) ≡ take n bytes
unfolding contents IsFull
adv_short bytes n mid old positive short full =
    let src : Buffer = record { size = n; bytes = bytes } in
    ap (λ b. contents (read_adv b old)) (written_lem bytes n n mid positive (clip_short n short))
    ∙ ap contents (
        read_short (copy_buffer src mid) old (omega (arith, copy_buffer_size src mid))
          (omega (arith, copy_buffer_size src mid)))
    ∙ copied_twice src mid old full

adv_full :
    (bytes : List ℕ) (n : ℕ) (mid old : Buffer)
    → 31 ≤ n
    → contents (read_adv (write_adv bytes (pos n) mid) old) ≡ replicate 31 0
unfolding contents
adv_full bytes n mid old full =
    let src : Buffer = record { size = 31; bytes = bytes } in
    ap (λ b. contents (read_adv b old))
      (written_lem bytes n 31 mid (omega arith) (clip_full n full))
    ∙ ap contents (read_full (copy_buffer src mid) old (copy_buffer_size src mid))

adv-read :
    (bytes : List ℕ) (n : ℕ) (mid old : Buffer)
    → 0 < n
    → n ≤ length bytes
    → contents (read_adv (write_adv bytes (pos n) mid) old) ≡ shown n bytes
unfolding shown
adv-read bytes n mid old positive whole = elim (Bool-cases (ltb n 31)) [
  | inl e ↦
      adv_short bytes n mid old positive (ltb→lt n 31 e) whole
      ∙ sym (ap (λ b. if b then take n bytes else replicate 31 0) e)
  | inr e ↦
      adv_full bytes n mid old (ground arith)
      ∙ sym (ap (λ b. if b then take n bytes else replicate 31 0) e)
]

-- What the parameters of a mode with advertising say.
unfoldable pub seen_adv : AdvParams → List ℕ × List ℕ
seen_adv p = (contents p.adv, contents p.scanrsp)

module _ (view : Message → BleView) (reads : IsView view) where
  -- The data of an advertising mode and of a peripheral mode, of at least one byte each, are read as
  -- they were given up to 30 bytes, whatever was there before. From 31 bytes on, which is the length
  -- that the message has room for, they are read as zeros.
  pub advertising_exact :
      (m : Message) (adv scanrsp : List ℕ) (n k : ℕ) (old : AdvParams)
      → 0 < n
      → n ≤ length adv
      → 0 < k
      → k ≤ length scanrsp
      → let built = write_adv_mode view (some m) (some adv) (pos n) (some scanrsp) (pos k) in
        let periph = peripheral_mode view (some m) (some adv) (pos n) (some scanrsp) (pos k) in
        (built.0 ≡ success)
        × Gives seen_adv (adv_mode_parse view built.1 (some old)) (shown n adv, shown k scanrsp)
        × (periph.0 ≡ success)
        × Gives seen_adv
            (peripheral_mode_parse view periph.1 (some old))
            (shown n adv, shown k scanrsp)
  unfolding IsView Holds write_adv_mode peripheral_mode write_adv_data adv_mode_parse
      peripheral_mode_parse seen_adv
  advertising_exact m adv scanrsp n k old some_adv adv_full some_scan scan_full =
      let before = (view m).adv_mode in
      let data_written : AdvMode = write_adv_data adv (pos n) scanrsp (pos k) before in
      let same =
        ap₂ (λ a s. some (a, s)) (adv-read adv n before.scan_data old.adv some_adv adv_full)
          (adv-read scanrsp k before.scanrsp_data old.scanrsp some_scan scan_full) in
      (
        refl,
        Gives-subst seen_adv (shown n adv, shown k scanrsp)
            (ap (read_with old) (reads (BleMessage.adv_mode data_written))) (refl, same),
        refl,
        Gives-subst seen_adv (shown n adv, shown k scanrsp)
            (ap (read_with old) (reads (BleMessage.periph_mode data_written))) (refl, same),
      )
    where
      read_with : AdvParams → AdvMode → Status × Option AdvParams
      read_with old d = (
        success,
        some (record {
          adv = read_adv d.scan_data old.adv;
          scanrsp = read_adv d.scanrsp_data old.scanrsp;
        }),
      )
