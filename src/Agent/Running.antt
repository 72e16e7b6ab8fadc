-- ===== src/Agent/Running.antt =====
-- The tasks of `RelayAgent::run` (lib.rs) at work: their starts, rounds of their loops, in any order,
-- on the shared statistics and transport, and calls of `shutdown` between them. A round is taken as
-- one step.
pub mod Live
pub mod Starting
pub mod Stopping
pub mod Shutdown
pub mod Staying
pub mod Growing
pub mod Waiting
pub mod Keeping
pub mod Counted
use dhcp_relay_agent.Common.{
  ℕ, zero, suc, Bool, true, false, Option, none, some, List, [], ◌∷◌, ◌++◌, Bytes, Result, ok, err,
  if◌then◌else◌,
}
use dhcp_relay_agent.Net.{SocketAddr}
use dhcp_relay_agent.Error.{Text, RelayResult}
use dhcp_relay_agent.Agent.{Node}
use dhcp_relay_agent.Agent.Receive.{Task, receive}
use dhcp_relay_agent.Agent.Watch.{Watch}

-- What `transport.recv_from()` gives to a round.
abbrev pub Received : Type 0
Received = Result Text (Bytes × SocketAddr)

-- `if let Ok((data, src)) = result { … }`
abbrev pub receive_if : Task → Received → Node → Node
receive_if t (ok (data_bytes, src)) node = receive t data_bytes src node
receive_if t (err _) node = node

-- A call of `shutdown`, or a round of a task, with what it receives if it gets to that.
pub data Move : Type 0 where
  call_shutdown : Move
  round : ℕ → Received → Move

-- How the tasks of a protocol are started: for each the moves before it, and those behind the last.
pub record Starts : Type 1 where
  pub tasks : List (List Move × Task)
  pub at_last : List Move

module _ (w : Watch) where
  pub data Phase : Type 0 where
    waiting : w.Receiver → Phase
    ended : Phase

  pub record Loop : Type 1 where
    pub task : Task
    pub phase : Phase

  pub record System : Type 1 where
    pub tx : w.Sender
    pub node : Node
    pub loops : List Loop

  -- `_ = sr.changed() => if *sr.borrow() { break; }`; a task that ends drops its receiver.
  abbrev pub on_changed : Bool → w.Receiver → Loop → System → System
  on_changed true rx l s = record s {
    tx = w.drop rx s.tx;
    loops = record l { phase = ended } ∷ s.loops;
  }
  on_changed false rx l s = record s { loops = record l { phase = waiting rx } ∷ s.loops }

  -- The `select!`, which is biased: the signal comes before the packets.
  unfoldable pub select : Received → Loop → System → System
  select packet l s = elim l.phase [
    | ended ↦ record s { loops = l ∷ s.loops }
    | waiting rx ↦ elim (w.changed rx s.tx) [
      | some rx' ↦ on_changed (w.value s.tx) rx' l s
      | none ↦ record s { node = receive_if l.task packet s.node; loops = l ∷ s.loops }
    ]
  ]

  abbrev pub put : Loop → System → System
  put l s = record s { loops = l ∷ s.loops }

  -- A round of the task at this place.
  unfoldable pub turn : ℕ → Received → List Loop → w.Sender → Node → System
  turn i packet [] tx node = record { tx = tx; node = node; loops = [] }
  turn zero packet (l ∷ ls) tx node = select packet l (record { tx = tx; node = node; loops = ls })
  turn (suc i) packet (l ∷ ls) tx node = put l (turn i packet ls tx node)

  unfoldable pub step : Move → System → System
  step call_shutdown s = record s { tx = w.send true s.tx }
  step (round i packet) s = turn i packet s.loops s.tx s.node

  unfoldable pub moves : List Move → System → System
  moves [] s = s
  moves (m ∷ ms) s = moves ms (step m s)

  -- `let mut sr = shutdown_rx.clone()` and `tokio::spawn` for each task; before each, the tasks that
  -- are started already make these moves.
  unfoldable pub cloned : List (List Move × Task) → w.Receiver → System → System
  cloned [] rx s = s
  cloned ((ms, t) ∷ starts) rx s =
      let s₁ = moves ms s in
      let (sr, tx) = w.clone rx s₁.tx in
      let l : Loop = record { task = t; phase = waiting sr } in
      cloned starts rx (record s₁ { tx = tx; loops = s₁.loops ++ l ∷ [] })

  -- `let shutdown_rx = self.inner.shutdown_tx.subscribe()`, which is dropped when all tasks of the
  -- protocol are started.
  unfoldable pub subscribed : Starts → System → System
  subscribed starts s =
      let (rx, tx) = w.subscribe s.tx in
      let s₁ = moves starts.at_last (cloned starts.tasks rx (record s { tx = tx })) in
      record s₁ { tx = w.drop rx s₁.tx }

  -- The start of the DHCPv4 tasks and then of the DHCPv6 tasks, and the moves between them.
  unfoldable pub running : Starts → List Move → Starts → w.Sender → Node → System
  running v4 between v6 tx node =
      subscribed v6 (moves between (subscribed v4 (record { tx = tx; node = node; loops = [] })))

  abbrev pub is_waiting : Phase → Bool
  is_waiting ended = false
  is_waiting (waiting _) = true

  -- There is a task at this place, and it has not ended.
  abbrev pub is_running : List Loop → ℕ → Bool
  is_running [] i = false
  is_running (l ∷ ls) zero = is_waiting l.phase
  is_running (l ∷ ls) (suc i) = is_running ls i

  -- `for handle in handles { let _ = handle.await; }` and `Ok(())`: what `run` returns, once every
  -- task of its handles has ended.
  unfoldable pub waited : List ℕ → List Loop → Option (RelayResult Unit)
  waited [] ls = some (ok tt)
  waited (handle ∷ handles) ls =
      let rest = waited handles ls in if is_running ls handle then none else rest
