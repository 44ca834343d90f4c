-- ===== src/SenderPipeline/Config.antt =====
-- SenderPipeline.h: the configuration, and SenderPipeline::validateConfig(). Strings that are only
-- passed on are left out; of `retransmit` and `fec` the fields stand here.
use lowlat_stream.Base.{
  ◌<◌, ◌≡◌, ◌↔◌, ◌⊎◌, Bool, true, not, ◌||◌, ◌&&◌, ◌==◌, ◌%◌, ◌+◌, if◌then◌else◌, length, arith,
}
use lowlat_stream.Base.Int.{ℤ, pos, pos_part, neg_part, ltb_ℤ, eq_ℤ, ◌≤ℤ◌}
use lowlat_stream.Status.{Result, ok, invalid_arg, require, ◌>>◌}
use lowlat_stream.Net.{Endpoint}

pub record SourceConfig : Type 0 where
  pub width : ℤ
  pub height : ℤ
  pub fps : ℤ

pub record EncoderConfig : Type 0 where
  pub width : ℤ
  pub height : ℤ
  pub fps : ℤ
  pub bitrate_kbps : ℤ
  pub gop : ℤ

pub record SenderPipelineConfig : Type 0 where
  pub source : SourceConfig
  pub encoder : EncoderConfig
  pub queue_capacity : ℤ
  pub max_frames : ℤ
  pub target : Endpoint
  pub send_queue_capacity : ℤ
  pub retention_ms : ℤ
  pub reverse_packets_per_iteration : ℤ
  pub send_poll_ms : ℤ

-- `value <= 0`, `value < 0` and `value % 2 != 0`.
abbrev pub not_positive : ℤ → Bool
not_positive a = not (ltb_ℤ (pos 0) a)

abbrev pub negative : ℤ → Bool
negative a = ltb_ℤ a (pos 0)

abbrev pub is_odd : ℤ → Bool
is_odd a = not ((pos_part a + neg_part a) % 2 == 0)

unfoldable pub validate_target : SenderPipelineConfig → Result (Unit {0})
validate_target c =
    if length c.target.ip == 0
    then ok tt
    else (require (not (not_positive c.send_queue_capacity)) invalid_arg
        >> require (not (c.target.port == 0)) invalid_arg
        >> require (not (negative c.retention_ms)) invalid_arg
        >> require (not (not_positive c.send_poll_ms)) invalid_arg
        >> require (not (negative c.reverse_packets_per_iteration)) invalid_arg)

unfoldable pub validate_size : ℤ → ℤ → Result (Unit {0})
validate_size width height =
    require (not (not_positive width || not_positive height || is_odd width || is_odd height))
      invalid_arg

-- The argument `has_source` says that `source_` is not null.
unfoldable pub validate_config : Bool → SenderPipelineConfig → Result (Unit {0})
validate_config has_source c =
    require has_source invalid_arg
    >> require (not (not_positive c.queue_capacity)) invalid_arg
    >> require (not (negative c.max_frames)) invalid_arg
    >> validate_target c
    >> validate_size c.source.width c.source.height
    >> require (not (not_positive c.source.fps)) invalid_arg
    >> validate_size c.encoder.width c.encoder.height
    >> require
        (not (
          not_positive c.encoder.fps
          || not_positive c.encoder.bitrate_kbps
          || not_positive c.encoder.gop))
        invalid_arg
    >> require (eq_ℤ c.source.width c.encoder.width && eq_ℤ c.source.height c.encoder.height)
        invalid_arg
    >> require (eq_ℤ c.source.fps c.encoder.fps) invalid_arg

-- A picture that both the camera and the encoder can take.
pub record IsPicture (width : ℤ) (height : ℤ) : Type 0 where
  pub width_positive : pos 1 ≤ℤ width
  pub height_positive : pos 1 ≤ℤ height
  pub width_even : (pos_part width + neg_part width) % 2 ≡ 0
  pub height_even : (pos_part height + neg_part height) % 2 ≡ 0

pub record IsTarget (c : SenderPipelineConfig) : Type 0 where
  pub send_queue : pos 1 ≤ℤ c.send_queue_capacity
  pub port : 0 < c.target.port
  pub retention : pos 0 ≤ℤ c.retention_ms
  pub poll : pos 1 ≤ℤ c.send_poll_ms
  pub reverse : pos 0 ≤ℤ c.reverse_packets_per_iteration

pub record IsUsable (c : SenderPipelineConfig) : Type 0 where
  pub queue : pos 1 ≤ℤ c.queue_capacity
  pub frames : pos 0 ≤ℤ c.max_frames
  pub target : (length c.target.ip ≡ 0) ⊎ IsTarget c
  pub picture : IsPicture c.source.width c.source.height
  pub rates : (pos 1 ≤ℤ c.source.fps) × (pos 1 ≤ℤ c.encoder.bitrate_kbps) × (pos 1 ≤ℤ c.encoder.gop)
  pub same_width : c.source.width ≡ c.encoder.width
  pub same_height : c.source.height ≡ c.encoder.height
  pub same_fps : c.source.fps ≡ c.encoder.fps

validate_target_lem :
    (c : SenderPipelineConfig)
    → (validate_target c ≡ ok tt) ↔ ((length c.target.ip ≡ 0) ⊎ IsTarget c)
unfolding validate_target
validate_target_lem c = ground arith

validate_size_lem : (w h : ℤ) → (validate_size w h ≡ ok tt) ↔ IsPicture w h
unfolding validate_size
validate_size_lem w h = ground arith

-- The configuration is accepted exactly if there is a source, both queues have room, no count or time is
-- negative, the address to send to, if there is one, has a port, and the camera and the encoder agree
-- on a picture of positive even size and a positive rate.
validate_config_lem :
    (has_source : Bool) (c : SenderPipelineConfig)
    → (validate_config has_source c ≡ ok tt) ↔ ((has_source ≡ true) × IsUsable c)
unfolding validate_config
validate_config_lem has_source c = ground (
  arith,
  validate_target_lem c,
  validate_size_lem c.source.width c.source.height,
  validate_size_lem c.encoder.width c.encoder.height,
)
