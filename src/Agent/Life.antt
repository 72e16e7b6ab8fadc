-- ===== src/Agent/Life.antt =====
-- `RelayAgent` of lib.rs: its construction, the shutdown signal, and the providers that an embedder
-- gives and the multicast engine takes.
use dhcp_relay_agent.Common.{
  true, false, Option, none, some, List, [], ◌∷◌, ◌++◌, Bytes, ok, ◌>>◌, ◌≡◌, ◌↔◌, refl, arith,
}
use dhcp_relay_agent.Net.{SocketAddr}
use dhcp_relay_agent.Error.{RelayResult}
use dhcp_relay_agent.Config.{RelayConfig, validate}
use dhcp_relay_agent.Config.Validity.{IsValid, validate-ok_iff}
use dhcp_relay_agent.Traits.{TopologyProvider, RelaySetSelector}
use dhcp_relay_agent.Agent.{RelayStats, no_stats, Node}
use dhcp_relay_agent.Agent.Watch.{Watch}
use dhcp_relay_agent.Agent.Receive.{Event, changed, received, receive_failed, run_task}

-- `Inner`, which all handles share; the mutexes hold an optional provider each.
pub record RelayAgent (w : Watch) : Type 0 where
  pub config : RelayConfig
  pub stats : RelayStats
  pub shutdown_tx : w.Sender
  pub topology_provider : Option TopologyProvider
  pub relay_selector : Option RelaySetSelector

module _ (w : Watch) where
  -- `let (shutdown_tx, _) = watch::channel(false)`: the receiver is dropped.
  abbrev pub initial_tx : w.Sender
  initial_tx = let (tx, rx) = w.channel false in w.drop rx tx

  unfoldable pub new : RelayConfig → RelayResult (RelayAgent w)
  new cfg = do
    validate cfg
    ok (record {
      config = cfg;
      stats = no_stats;
      shutdown_tx = initial_tx;
      topology_provider = none;
      relay_selector = none;
    })

  unfoldable pub shutdown : RelayAgent w → RelayAgent w
  shutdown agent = record agent { shutdown_tx = w.send true agent.shutdown_tx }

  unfoldable pub with_topology_provider : TopologyProvider → RelayAgent w → RelayAgent w
  with_topology_provider provider agent = record agent { topology_provider = some provider }

  unfoldable pub with_relay_selector : RelaySetSelector → RelayAgent w → RelayAgent w
  with_relay_selector selector agent = record agent { relay_selector = some selector }

  unfoldable pub take_topology_provider : RelayAgent w → Option TopologyProvider × RelayAgent w
  take_topology_provider agent =
      (agent.topology_provider, record agent { topology_provider = none })

  unfoldable pub take_relay_selector : RelayAgent w → Option RelaySetSelector × RelayAgent w
  take_relay_selector agent = (agent.relay_selector, record agent { relay_selector = none })

  -- An agent is made exactly from a valid configuration, which it keeps; its counters are zero.
  pub new_iff :
      (cfg : RelayConfig)
      → ((agent : RelayAgent w) × (new cfg ≡ ok agent)
          × (agent.config ≡ cfg)
          × (agent.stats ≡ no_stats))
        ↔ IsValid cfg
  unfolding new
  new_iff cfg = (
    λ (agent, e, _, _). (validate-ok_iff cfg).0 (ground (arith, e)),
    λ v.
        let made = (validate-ok_iff cfg).1 v in
        (
          record {
            config = cfg;
            stats = no_stats;
            shutdown_tx = initial_tx;
            topology_provider = none;
            relay_selector = none;
          },
          ground (arith, made),
          refl,
          refl,
        ),
  )

  -- A provider that is given and a selector are each taken once, by either order of the calls: the first
  -- call returns it, a second one nothing.
  pub take-with :
      (provider : TopologyProvider) (selector : RelaySetSelector) (agent : RelayAgent w)
      → let given = with_relay_selector selector (with_topology_provider provider agent) in
        let first = take_topology_provider given in
        let second = take_relay_selector first.1 in
        (first.0 ≡ some provider)
        × (second.0 ≡ some selector)
        × ((take_topology_provider second.1).0 ≡ none)
        × ((take_relay_selector second.1).0 ≡ none)
  unfolding with_topology_provider with_relay_selector take_topology_provider take_relay_selector
  take-with provider selector agent = (refl, refl, refl, refl)

-- Nothing that comes after a shutdown signal is processed.
pub run_task-shutdown :
    (receive : Bytes → SocketAddr → Node → Node) (es later : List Event) (node : Node)
    → run_task receive (es ++ changed true ∷ later) node ≡ run_task receive es node
unfolding run_task
run_task-shutdown receive [] later node = refl
run_task-shutdown receive (changed true ∷ es) later node = refl
run_task-shutdown receive (changed false ∷ es) later node = run_task-shutdown receive es later node
run_task-shutdown receive (received data_bytes src ∷ es) later node =
    run_task-shutdown receive es later (receive data_bytes src node)
run_task-shutdown receive (receive_failed ∷ es) later node = run_task-shutdown receive es later node
