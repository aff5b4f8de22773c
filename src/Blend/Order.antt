-- ===== src/Blend/Order.antt =====
-- nomos-blend/core/src/message_blend: no message is lost, doubled or overtaken on its way.
use nomos_node.Prelude.{Bool, Option, none, some, List, [], ◌∷◌, ◌++◌, nat_eq}
use nomos_node.Blend.Stream.{Unwrap, BlendOutgoingMessage, MessageBlendStream, incoming, poll_next}

abbrev pub released {ℓ} : {A : Type ℓ} → Option A → List A
released none = []
released (some a) = a ∷ []

-- The messages that come off the input, unwrapped.
unfoldable pub unwrapped :
    (crypto : Unwrap) → List (Option crypto.Bytes × Bool) → List (BlendOutgoingMessage crypto.Bytes)
unwrapped crypto [] = []
unwrapped crypto ((input, scheduled) ∷ polls) = incoming crypto input ++ unwrapped crypto polls

module _ {crypto : Unwrap} where
  -- What the stream holds, the oldest first.
  abbrev pub held : MessageBlendStream crypto → List (BlendOutgoingMessage crypto.Bytes)
  held self = self.queue ++ self.channel

  -- The polls, each with what the input and the scheduler have ready: what was released, and the stream.
  unfoldable pub poll_all :
      List (Option crypto.Bytes × Bool)
      → MessageBlendStream crypto
      → List (BlendOutgoingMessage crypto.Bytes) × MessageBlendStream crypto
  poll_all [] self = ([], self)
  poll_all ((input, scheduled) ∷ polls) self =
      let (out, after) = poll_next crypto input scheduled self in
      let (later, final) = poll_all polls after in (released out ++ later, final)
