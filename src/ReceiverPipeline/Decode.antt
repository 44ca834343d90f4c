-- ===== src/ReceiverPipeline/Decode.antt =====
-- ReceiverPipeline.cpp, decodeLoop(): the decoding thread, from the frames that its queue hands out to
-- the queue of the renderer. The decoder is a parameter. The list of frames ends where the queue is
-- closed and empty; a stop from outside is left out.
use lowlat_stream.Base.{◌≡◌, ◌⊎◌, inl, inr, refl, Bool, true, false, if◌then◌else◌, List, [], ◌∷◌}
use lowlat_stream.FrameAssembler.{AssembledFrame}
use lowlat_stream.BoundedQueue.{BoundedQueue, force_push, close}

-- The status of decode(): Ok, a stream that is broken (Code::NetError), or another error.
pub data Decoded : Type 0 where
  complete broken failed : Decoded

pub Decoded-cases : (d : Decoded) → (d ≡ complete) ⊎ (d ≡ broken) ⊎ (d ≡ failed)
Decoded-cases complete = inl refl
Decoded-cases broken = inr (inl refl)
Decoded-cases failed = inr (inr refl)

-- Both calls leave pictures in `decoded`, also those that then fail. flush() says whether it succeeded.
pub record Decoder : Type 1 where
  pub State : Type 0
  pub Raw : Type 0
  pub decode : State → AssembledFrame → Decoded × List Raw × State
  pub flush : State → Bool × List Raw × State

module _ (D : Decoder) where
  -- `is_ok` says whether `decodeStatus_` is still Ok.
  pub record DecodeThread : Type 0 where
    pub decoder : D.State
    pub queue_b : BoundedQueue D.Raw
    pub is_ok : Bool

  -- The loop over the pictures of one frame; false if the queue is closed.
  unfoldable pub push_all : BoundedQueue D.Raw → List D.Raw → Bool × BoundedQueue D.Raw
  push_all q [] = (true, q)
  push_all q (x ∷ xs) =
      let (is_in, p) = force_push x q in
      let later = push_all p xs in if is_in then later else (false, p)

  -- requestStop().
  abbrev pub stop : DecodeThread → DecodeThread
  stop t = record t { queue_b = close t.queue_b }

  -- The input has come to its end: what the decoder still holds goes to the renderer.
  unfoldable pub finish : DecodeThread → DecodeThread
  finish t =
      let (is_flushed, raws, decoder) = D.flush t.decoder in
      if is_flushed
      then stop (record t { decoder = decoder; queue_b = (push_all t.queue_b raws).1 })
      else stop (record t { decoder = decoder; is_ok = false })

  unfoldable pub decode_loop : DecodeThread → List AssembledFrame → DecodeThread
  decode_loop t [] = finish t
  decode_loop t (frame ∷ frames) =
      let (status, raws, decoder) = D.decode t.decoder frame in
      elim status [
        | failed ↦ stop (record t { decoder = decoder; is_ok = false })
        | broken ↦ decode_loop (record t { decoder = decoder }) frames
        | complete ↦
            let (is_open, queue) = push_all t.queue_b raws in
            let q = record t { decoder = decoder; queue_b = queue } in
            let later = decode_loop q frames in if is_open then later else stop q
      ]
