-- ===== src/Agent/Watch.antt =====
-- The channel `tokio::sync::watch` of the shutdown signal in lib.rs: the operations that are used,
-- on a Boolean, and what their documentation says of them.
use dhcp_relay_agent.Common.{ℕ, ◌+◌, ◌-◌, ◌<◌, Bool, Option, none, some, ◌≡◌}

-- A sender knows its receivers. `receivers` is `receiver_count()`; `version` counts the values that
-- were sent, and `seen` is the last of them that a receiver has seen.
pub record Watch : Type 1 where
  pub Sender : Type 0
  pub Receiver : Type 0
  pub channel : Bool → Sender × Receiver
  pub subscribe : Sender → Receiver × Sender
  pub clone : Receiver → Sender → Receiver × Sender
  pub drop : Receiver → Sender → Sender
  pub send : Bool → Sender → Sender
  -- The receiver behind `changed()`, where it is ready.
  pub changed : Receiver → Sender → Option Receiver
  -- `*receiver.borrow()`
  pub value : Sender → Bool
  pub receivers : Sender → ℕ
  pub version : Sender → ℕ
  pub seen : Receiver → ℕ

-- The channel starts with one receiver; a value is sent only where there is a receiver; a new
-- receiver has seen the present value, and a copy what its original has; `changed` is ready where
-- the present value has not been seen, and sees it.
pub record IsWatch (w : Watch) : Type 0 where
  pub channel_receivers : (b : Bool) → w.receivers (w.channel b).0 ≡ 1
  pub subscribe_receivers : (tx : w.Sender) → w.receivers (w.subscribe tx).1 ≡ w.receivers tx + 1
  pub subscribe_version : (tx : w.Sender) → w.version (w.subscribe tx).1 ≡ w.version tx
  pub subscribe_seen : (tx : w.Sender) → w.seen (w.subscribe tx).0 ≡ w.version tx
  pub clone_receivers :
      (rx : w.Receiver) (tx : w.Sender) → w.receivers (w.clone rx tx).1 ≡ w.receivers tx + 1
  pub clone_version : (rx : w.Receiver) (tx : w.Sender) → w.version (w.clone rx tx).1 ≡ w.version tx
  pub clone_seen : (rx : w.Receiver) (tx : w.Sender) → w.seen (w.clone rx tx).0 ≡ w.seen rx
  pub drop_receivers :
      (rx : w.Receiver) (tx : w.Sender) → w.receivers (w.drop rx tx) ≡ w.receivers tx - 1
  pub drop_version : (rx : w.Receiver) (tx : w.Sender) → w.version (w.drop rx tx) ≡ w.version tx
  pub drop_value : (rx : w.Receiver) (tx : w.Sender) → w.value (w.drop rx tx) ≡ w.value tx
  pub send_nobody : (b : Bool) (tx : w.Sender) → w.receivers tx ≡ 0 → w.send b tx ≡ tx
  pub send_receivers : (b : Bool) (tx : w.Sender) → w.receivers (w.send b tx) ≡ w.receivers tx
  pub send_version :
      (b : Bool) (tx : w.Sender) → 0 < w.receivers tx → w.version (w.send b tx) ≡ w.version tx + 1
  pub send_value : (b : Bool) (tx : w.Sender) → 0 < w.receivers tx → w.value (w.send b tx) ≡ b
  pub changed_unseen :
      (rx : w.Receiver) (tx : w.Sender)
      → w.seen rx < w.version tx
      → (rx' : w.Receiver) × (w.changed rx tx ≡ some rx')
  pub changed_sees :
      (rx rx' : w.Receiver) (tx : w.Sender) → w.changed rx tx ≡ some rx' → w.seen rx' ≡ w.version tx
  pub changed_seen :
      (rx : w.Receiver) (tx : w.Sender) → w.seen rx ≡ w.version tx → w.changed rx tx ≡ none
