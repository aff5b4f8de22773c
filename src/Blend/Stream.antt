-- ===== src/Blend/Stream.antt =====
-- nomos-blend/core/src/message_blend: temporal.rs (`TemporalProcessor`, `TemporalStream`) and mod.rs
-- (`MessageBlendStream`). What a stream has ready when it is polled is an argument; the channel between the two is the
-- list of what it holds. Taking the layer of a message off is the argument `Unwrap`.
use nomos_node.Prelude.{
  ◌⊎◌, inl, inr, Bool, true, false, Option, none, some, List, [], ◌∷◌, ◌++◌, nat_eq,
}

-- `CryptographicProcessor::unwrap_message`: the message below, and whether it is the last.
pub record Unwrap : Type 1 where
  pub Bytes : Type 0
  pub Error : Type 0
  pub unwrap_message : Bytes → Error ⊎ (Bytes × Bool)

pub data BlendOutgoingMessage (Bytes : Type 0) : Type 0 where
  outbound fully_unwrapped : Bytes → BlendOutgoingMessage Bytes

-- The queue of `TemporalProcessor`.
unfoldable pub push_message {ℓ} : {M : Type ℓ} → List M → M → List M
push_message queue message = queue ++ (message ∷ [])

-- `TemporalProcessor::poll_next`, with the scheduler's readiness.
unfoldable pub poll_processor {ℓ} : {M : Type ℓ} → Bool → List M → Option M × List M
poll_processor false queue = (none, queue)
poll_processor true [] = (none, [])
poll_processor true (msg ∷ queue) = (some msg, queue)

-- `TemporalStream::poll_next`, over what the channel holds and the queue.
unfoldable pub poll_temporal {ℓ} :
    {M : Type ℓ} → Bool → List M → List M → Option M × List M × List M
poll_temporal scheduled [] queue =
    let (released, left) = poll_processor scheduled queue in (released, [], left)
poll_temporal scheduled (item ∷ channel) queue =
    let (released, left) = poll_processor scheduled (push_message queue item) in
    (released, channel, left)

module _ (crypto : Unwrap) where
  pub record MessageBlendStream : Type 0 where
    pub channel : List (BlendOutgoingMessage crypto.Bytes)
    pub queue : List (BlendOutgoingMessage crypto.Bytes)

  abbrev pub outgoing : crypto.Bytes × Bool → BlendOutgoingMessage crypto.Bytes
  outgoing (message, true) = fully_unwrapped message
  outgoing (message, false) = outbound message

  -- What `process_incoming_message` sends; a message that cannot be unwrapped is only logged.
  unfoldable pub process_incoming_message : crypto.Bytes → List (BlendOutgoingMessage crypto.Bytes)
  process_incoming_message message = elim (crypto.unwrap_message message) [
    | inl e ↦ []
    | inr u ↦ outgoing u ∷ []
  ]

  abbrev pub incoming : Option crypto.Bytes → List (BlendOutgoingMessage crypto.Bytes)
  incoming none = []
  incoming (some message) = process_incoming_message message

  -- `MessageBlendStream::poll_next`
  unfoldable pub poll_next :
      Option crypto.Bytes
      → Bool
      → MessageBlendStream
      → Option (BlendOutgoingMessage crypto.Bytes) × MessageBlendStream
  poll_next input scheduled self =
      let (released, channel, queue) =
        poll_temporal scheduled (self.channel ++ incoming input) self.queue in
      (released, record { channel = channel; queue = queue })
