-- ===== src/Subscriptions/FlowControl.antt =====
-- src/subscriptions/flow_control.rs: the limits of a streaming pull. The atomic words wrap, and
-- `notified` counts the calls of `notify_waiters`.
use deltio.Prelude.{
  Bool, arith, false, if◌then◌else◌, leb, suc, true, ℕ, ◌%◌, ◌+◌, ◌-◌, ◌<◌, ◌^◌, ◌↔◌, ◌≡◌, nat_eq,
}

pub record FlowControl : Type 0 where
  pub max_outstanding_bytes : ℕ
  pub max_outstanding_messages : ℕ
  pub outstanding_bytes : ℕ
  pub outstanding_messages : ℕ
  pub notified : ℕ

abbrev pub create : ℕ → ℕ → FlowControl
create max_outstanding_bytes max_outstanding_messages = record {
  max_outstanding_bytes = max_outstanding_bytes;
  max_outstanding_messages = max_outstanding_messages;
  outstanding_bytes = 0;
  outstanding_messages = 0;
  notified = 0;
}

-- `fetch_add` and `fetch_sub`.
abbrev fetch_add : ℕ → ℕ → ℕ
fetch_add a delta = (a + delta) % 2 ^ 64

abbrev fetch_sub : ℕ → ℕ → ℕ
fetch_sub a delta = (a + (2 ^ 64 - delta)) % 2 ^ 64

unfoldable pub inc : ℕ → ℕ → FlowControl → FlowControl
inc bytes messages c = record c {
  outstanding_bytes = fetch_add c.outstanding_bytes bytes;
  outstanding_messages = fetch_add c.outstanding_messages messages;
  notified = suc c.notified;
}

unfoldable pub dec : ℕ → ℕ → FlowControl → FlowControl
dec bytes messages c = record c {
  outstanding_bytes = fetch_sub c.outstanding_bytes bytes;
  outstanding_messages = fetch_sub c.outstanding_messages messages;
  notified = suc c.notified;
}

unfoldable pub has_available_space : FlowControl → Bool
has_available_space c =
    if leb c.max_outstanding_messages c.outstanding_messages
    then false
    else if leb c.max_outstanding_bytes c.outstanding_bytes
    then false
    else true

-- A change of the counts by one of the parties.
pub data Change : Type 0 where
  incremented decremented : ℕ → ℕ → Change

abbrev apply_change : Change → FlowControl → FlowControl
apply_change (incremented bytes messages) c = inc bytes messages c
apply_change (decremented bytes messages) c = dec bytes messages c

abbrev undo : Change → Change
undo (incremented bytes messages) = decremented bytes messages
undo (decremented bytes messages) = incremented bytes messages

abbrev IsWordChange : Change → Type 0
IsWordChange (incremented bytes messages) = (bytes < 2 ^ 64) × (messages < 2 ^ 64)
IsWordChange (decremented bytes messages) = (bytes < 2 ^ 64) × (messages < 2 ^ 64)

-- The counts are 64-bit words.
pub record HasWords (c : FlowControl) : Type 0 where
  pub bytes : c.outstanding_bytes < 2 ^ 64
  pub messages : c.outstanding_messages < 2 ^ 64

-- Space is available if and only if both counts are below their limits.
has_available_space_iff :
    (c : FlowControl)
    → (has_available_space c ≡ true) ↔ (
        (c.outstanding_bytes < c.max_outstanding_bytes)
        × (c.outstanding_messages < c.max_outstanding_messages))
unfolding has_available_space
has_available_space_iff c = ground arith

restored :
    (c : FlowControl) (bytes messages notified : ℕ)
    → bytes ≡ c.outstanding_bytes
    → messages ≡ c.outstanding_messages
    → notified ≡ c.notified + 2
    → record c { outstanding_bytes = bytes; outstanding_messages = messages; notified = notified }
      ≡ record c { notified = c.notified + 2 }
restored c bytes messages notified e e' e'' =
    λ i. record c { outstanding_bytes = e i; outstanding_messages = e' i; notified = e'' i }

-- Taking a change of the counts back restores both, even if they wrapped in between, and with them
-- whether space is available; the waiters are notified each time.
apply_change-undo :
    (change : Change) (c : FlowControl)
    → IsWordChange change
    → HasWords c
    → (apply_change (undo change) (apply_change change c) ≡ record c { notified = c.notified + 2 })
unfolding inc dec
apply_change-undo (incremented bytes messages) c w h =
    restored c _ _ _ (omega (arith, w, h.bytes)) (omega (arith, w, h.messages)) (omega arith)
apply_change-undo (decremented bytes messages) c w h =
    restored c _ _ _ (omega (arith, w, h.bytes)) (omega (arith, w, h.messages)) (omega arith)
