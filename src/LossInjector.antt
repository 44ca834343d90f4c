-- ===== src/LossInjector.antt =====
-- modules/transport/LossInjector.h and LossInjector.cpp: which packets a test run drops.
mod Laws
mod Tests
use lowlat_stream.Base.{
  ℕ, ◌+◌, ◌*◌, ◌/◌, ◌%◌, ◌^◌, bit_or, bit_xor, Bool, true, false, not, ltb, leb, ◌==◌, ◌&&◌,
  if◌then◌else◌,
}

-- `LOSS_SEED_DISABLED`.
abbrev pub loss_seed_disabled : ℕ
loss_seed_disabled = 0

-- `loss_percent` is an int; a negative one acts as 0.
pub record LossConfig : Type 0 where
  pub seed : ℕ
  pub loss_percent : ℕ

unfoldable pub loss_injection_enabled : LossConfig → Bool
loss_injection_enabled config =
    not (config.seed == loss_seed_disabled)
    && ltb 0 config.loss_percent
    && leb config.loss_percent 100

-- The mix of seed, type and number. The type and the products are cut to their widths.
unfoldable pub loss_hash : ℕ → ℕ → ℕ → ℕ
loss_hash seed seq packet_type =
    let typed = bit_xor seq (packet_type * 0x9E37_79B9 % 2 ^ 32) in
    let m0 = bit_or (seed * 2 ^ 32 % 2 ^ 64) typed in
    let m1 = (m0 + 0x9E37_79B9_7F4A_7C15) % 2 ^ 64 in
    let m2 = bit_xor m1 (m1 / 2 ^ 30) * 0xBF58_476D_1CE4_E5B9 % 2 ^ 64 in
    let m3 = bit_xor m2 (m2 / 2 ^ 27) * 0x94D0_49BB_1331_11EB % 2 ^ 64 in
    let m4 = bit_xor m3 (m3 / 2 ^ 31) in bit_xor m4 (m4 / 2 ^ 32) % 2 ^ 32

unfoldable pub should_drop_packet : LossConfig → ℕ → ℕ → Bool → Bool
should_drop_packet config seq packet_type is_retransmit =
    if not (loss_injection_enabled config)
    then false
    else if is_retransmit
    then false
    else if leb 100 config.loss_percent
    then true
    else ltb (loss_hash config.seed seq packet_type % 100) config.loss_percent
