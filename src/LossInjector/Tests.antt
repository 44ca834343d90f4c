-- ===== src/LossInjector/Tests.antt =====
-- Runs of the loss injector.
use lowlat_stream.Base.{◌≡◌, refl, true, false}
use lowlat_stream.LossInjector.{should_drop_packet, loss_injection_enabled, loss_hash}
use lowlat_stream.LossInjector.Laws.{at_percent}

-- The value that the C++ expression has.
hash_run : loss_hash 7 5 1 ≡ 2918458830
unfolding loss_hash
hash_run = refl

drop_run : should_drop_packet (at_percent 7 100) 5 1 false ≡ true
unfolding should_drop_packet loss_injection_enabled
drop_run = refl
