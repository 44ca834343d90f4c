-- ===== src/LossInjector/Laws.antt =====
-- How the decision depends on the configuration.
use lowlat_stream.Base.{ℕ, ◌≤◌, ◌<◌, ◌≡◌, ◌↔◌, ◌%◌, Bool, true, false, arith}
use lowlat_stream.LossInjector.{LossConfig, loss_injection_enabled, loss_hash, should_drop_packet}

abbrev pub at_percent : ℕ → ℕ → LossConfig
at_percent seed percent = record { seed = seed; loss_percent = percent }

-- A packet is dropped exactly when it is no retransmission, the seed is set, the percentage is at most
-- 100, and the residue of its hash is below the percentage.
should_drop_packet_lem :
    (seed percent seq packet_type : ℕ) (is_retransmit : Bool)
    → (should_drop_packet (at_percent seed percent) seq packet_type is_retransmit ≡ true) ↔ (
        (is_retransmit ≡ false)
        × (0 < seed)
        × (percent ≤ 100)
        × (loss_hash seed seq packet_type % 100 < percent))
unfolding should_drop_packet loss_injection_enabled
should_drop_packet_lem seed percent seq packet_type is_retransmit = ground arith
