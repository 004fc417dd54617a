-- ===== src/Topics/Message/Ids.antt =====
-- The identifiers of messages.
use deltio.Prelude.{arith, ℕ, ◌<◌, ◌^◌, ◌≡◌, nat_eq}
use deltio.Topics.Message.{message_id}

-- Two messages have the same identifier only if they have the same topic and the same number in it,
-- as long as both numbers are 32-bit words.
pub message_id-injective :
    (topic local topic' local' : ℕ)
    → local < 2 ^ 32
    → local' < 2 ^ 32
    → message_id topic local ≡ message_id topic' local'
    → (topic ≡ topic') × (local ≡ local')
unfolding message_id
message_id-injective topic local topic' local' h h' e = (omega arith, omega arith)
