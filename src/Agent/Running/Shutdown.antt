-- ===== src/Agent/Running/Shutdown.antt =====
-- What `shutdown` of lib.rs does to the tasks of `run`, during it and before it.
use dhcp_relay_agent.Common.{
  ℕ, ◌<◌, true, false, List, [], ◌∷◌, ◌≡◌, ◌∙◌, ap, arith, All, ok, inl, inr, Result-cases,
}
use dhcp_relay_agent.Config.{RelayConfig, validate}
use dhcp_relay_agent.Agent.{Node}
use dhcp_relay_agent.Agent.Life.{RelayAgent, new, shutdown, initial_tx}
use dhcp_relay_agent.Agent.Watch.{Watch, IsWatch}
use dhcp_relay_agent.Agent.Running.{
  Starts, is_running, Move, call_shutdown, Phase, waiting, ended, Loop, System, step, moves,
  running,
}
use dhcp_relay_agent.Agent.Running.Live.{
  IsLive, UpTo, UpToPhase, zero_or_more, weight, alive, moves-IsLive,
}
use dhcp_relay_agent.Agent.Running.Starting.{running-IsLive}
use dhcp_relay_agent.Agent.Running.Stopping.{
  Warned, WarnedPhase, HasTurn, moves-Warned, moves-HasTurn,
}

module _ (w : Watch) (laws : IsWatch w) where
  Warned-none_alive : (tx : w.Sender) (p : Phase w) → weight w laws p ≡ 0 → WarnedPhase w laws tx p
  Warned-none_alive tx ended h = tt
  Warned-none_alive tx (waiting rx) h = absurd (omega arith)

  All-Warned-none_alive :
      (tx : w.Sender) (ls : List (Loop w)) → alive w laws ls ≡ 0 → All (Warned w laws tx) ls
  All-Warned-none_alive tx [] h = tt
  All-Warned-none_alive tx (l ∷ ls) h =
      (Warned-none_alive tx l.phase (omega arith), All-Warned-none_alive tx ls (omega arith))

  Warned-UpTo :
      (n : ℕ) (tx : w.Sender) (p : Phase w)
      → n < w.version tx
      → w.value tx ≡ true
      → UpToPhase w laws n p
      → WarnedPhase w laws tx p
  Warned-UpTo n tx ended later value h = tt
  Warned-UpTo n tx (waiting rx) later value h = (omega arith, value)

  All-Warned-UpTo :
      (n : ℕ) (tx : w.Sender) (ls : List (Loop w))
      → n < w.version tx
      → w.value tx ≡ true
      → All (UpTo w laws n) ls
      → All (Warned w laws tx) ls
  All-Warned-UpTo n tx [] later value h = tt
  All-Warned-UpTo n tx (l ∷ ls) later value (h, hs) =
      (Warned-UpTo n tx l.phase later value h, All-Warned-UpTo n tx ls later value hs)

  call_shutdown-Warned :
      (s : System w) → IsLive w laws 0 s → All (Warned w laws (w.send true s.tx)) s.loops
  call_shutdown-Warned s h = elim (zero_or_more (w.receivers s.tx)) [
    | inl none_left ↦ All-Warned-none_alive (w.send true s.tx) s.loops (omega (arith, h.count))
    | inr some_left ↦
        All-Warned-UpTo (w.version s.tx) (w.send true s.tx) s.loops
          (omega (arith, laws.send_version true s.tx some_left))
          (laws.send_value true s.tx some_left) h.seen
  ]

  -- Once `run` has started all its tasks, a call of `shutdown` ends them, whatever they did before in
  -- whatever order, during the start or behind it, and whatever calls of `shutdown` there were:
  -- afterwards no packet is processed, and a task that has had one more round has ended.
  pub call_shutdown-ends :
      (v4 : Starts) (between : List Move) (v6 : Starts) (tx : w.Sender) (node : Node)
      (earlier later : List Move) (i : ℕ)
      → HasTurn w laws i later
      → let s = moves w earlier (running w v4 between v6 tx node) in
        let s' = moves w later (step w call_shutdown s) in
        (s'.node ≡ s.node) × (is_running w s'.loops i ≡ false)
  unfolding step
  call_shutdown-ends v4 between v6 tx node earlier later i t =
      let started = running w v4 between v6 tx node in
      let s = moves w earlier started in
      let (live, _) =
        moves-IsLive w laws 0 earlier started (running-IsLive w laws v4 between v6 tx node) in
      let warned = call_shutdown-Warned s live in
      let s₁ = step w call_shutdown s in
      ((moves-Warned w laws later s₁ warned).0, moves-HasTurn w laws i s₁ t warned)

  new-initial_tx :
      (cfg : RelayConfig) (agent : RelayAgent w)
      → new w cfg ≡ ok agent
      → agent.shutdown_tx ≡ initial_tx w
  unfolding new
  new-initial_tx cfg agent made = elim (Result-cases (validate cfg)) [
    | inl (u, e) ↦ ground (arith, e, made)
    | inr (x, e) ↦ ground (arith, e, made)
  ]

  initial_tx-receivers : w.receivers (initial_tx w) ≡ 0
  initial_tx-receivers =
      let (tx, rx) = w.channel false in
      omega (arith, laws.drop_receivers rx tx, laws.channel_receivers false)

  -- A call of `shutdown` before `run` is lost: the agent's sender is as before, and whatever happens
  -- from the start of `run` on, the state is what it would have been without the call.
  pub running-shutdown :
      (cfg : RelayConfig) (agent : RelayAgent w) (v4 : Starts) (between : List Move) (v6 : Starts)
      (node : Node) (ms : List Move)
      → new w cfg ≡ ok agent
      → ((shutdown w agent).shutdown_tx ≡ agent.shutdown_tx)
        × (moves w ms (running w v4 between v6 (shutdown w agent).shutdown_tx node)
            ≡ moves w ms (running w v4 between v6 agent.shutdown_tx node))
  unfolding shutdown
  running-shutdown cfg agent v4 between v6 node ms made =
      let same =
        laws.send_nobody true agent.shutdown_tx
          (ap w.receivers (new-initial_tx cfg agent made) ∙ initial_tx-receivers) in
      (same, ap (λ tx. moves w ms (running w v4 between v6 tx node)) same)
