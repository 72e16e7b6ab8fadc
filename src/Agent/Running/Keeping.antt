-- ===== src/Agent/Running/Keeping.antt =====
-- What every packet keeps, the tasks of `run` (lib.rs) keep in any order of their rounds.
use dhcp_relay_agent.Common.{
  Bytes, ℕ, zero, suc, List, [], ◌∷◌, Bool, true, false, ok, err, Option-cases, inl, inr, ◌≡◌, refl,
}
use dhcp_relay_agent.Agent.{Node}
use dhcp_relay_agent.Net.{SocketAddr}
use dhcp_relay_agent.Agent.Receive.{Task, receive}
use dhcp_relay_agent.Agent.Watch.{Watch}
use dhcp_relay_agent.Agent.Running.{
  Received, receive_if, Move, call_shutdown, round, Phase, waiting, ended, Loop, System, on_changed,
  select, turn, step, moves,
}

module _ (w : Watch) (P : Node → Type 0)
    (receive-Keeps : (t : Task) (data_bytes : Bytes) (src : SocketAddr) (node : Node)
      → P node
      → P (receive t data_bytes src node)) where
  receive_if-Keeps :
      (t : Task) (packet : Received) (node : Node) → P node → P (receive_if t packet node)
  receive_if-Keeps t (ok (data_bytes, src)) node h = receive-Keeps t data_bytes src node h
  receive_if-Keeps t (err _) node h = h

  on_changed-node :
      (b : Bool) (rx : w.Receiver) (l : Loop w) (s : System w)
      → (on_changed w b rx l s).node ≡ s.node
  on_changed-node true rx l s = refl
  on_changed-node false rx l s = refl

  select-Keeps :
      (packet : Received) (t : Task) (p : Phase w) (s : System w)
      → P s.node
      → P (select w packet (record { task = t; phase = p }) s).node
  unfolding select
  select-Keeps packet t ended s h = h
  select-Keeps packet t (waiting rx) s h = elim (Option-cases (w.changed rx s.tx)) [
    | inl n ↦ rw (n, select) (receive_if-Keeps t packet s.node h)
    | inr (rx', e) ↦
        rw
          (
            e,
            select,
            on_changed-node (w.value s.tx) rx' (record { task = t; phase = waiting rx }) s,
          )
          h
  ]

  turn-Keeps :
      (i : ℕ) (packet : Received) (ls : List (Loop w)) (tx : w.Sender) (node : Node)
      → P node
      → P (turn w i packet ls tx node).node
  unfolding turn
  turn-Keeps i packet [] tx node h = h
  turn-Keeps zero packet (l ∷ ls) tx node h =
      select-Keeps packet l.task l.phase (record { tx = tx; node = node; loops = ls }) h
  turn-Keeps (suc i) packet (l ∷ ls) tx node h = turn-Keeps i packet ls tx node h

  pub moves-Keeps : (ms : List Move) (s : System w) → P s.node → P (moves w ms s).node
  unfolding moves step
  moves-Keeps [] s h = h
  moves-Keeps (call_shutdown ∷ ms) s h = moves-Keeps ms (record s { tx = w.send true s.tx }) h
  moves-Keeps (round i packet ∷ ms) s h =
      moves-Keeps ms (turn w i packet s.loops s.tx s.node)
        (turn-Keeps i packet s.loops s.tx s.node h)
