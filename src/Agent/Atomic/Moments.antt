-- ===== src/Agent/Atomic/Moments.antt =====
-- The counters of lib.rs at any moment, between two accesses of any of the tasks.
use dhcp_relay_agent.Common.{
  ℕ, suc, ◌+◌, ◌^◌, ◌≤◌, ◌<◌, Bool, true, false, List, [], ◌∷◌, ◌++◌, Bytes, length, ok, err, ◌≡◌,
  refl, sym, subst, arith, Option-cases, Result-cases, Bool-cases, inl, inr, ◌==◌, nat_eq,
}
use dhcp_relay_agent.Net.{SocketAddr}
use dhcp_relay_agent.Error.{RelayResult}
use dhcp_relay_agent.Pipeline.{PipelineContext, Flow}
use dhcp_relay_agent.V4.Dhcproto.{Dhcproto}
use dhcp_relay_agent.V6.Dhcproto.{DhcprotoV6}
use dhcp_relay_agent.V6.RelayFwd.{relay_repl}
use dhcp_relay_agent.Agent.{RelayStats, no_stats}
use dhcp_relay_agent.Agent.Receive.{
  Task, v4_task, v6_task, V4Task, V6Task, is_client4, is_client6, first_byte,
}
use dhcp_relay_agent.Agent.Atomic.{
  Effect, counts_received, counts_forwarded, counts_spoof, counts_stripped, sends, on_stats,
  stats_after, sending, after_v4_client, after_v4_server, after_v6, effects_v4, effects_v6, effects,
}
use dhcp_relay_agent.Agent.Atomic.Orders.{Interleaves, all_done, one_done, next}
use dhcp_relay_agent.Agent.Atomic.Interleaving.{Arrival, effects_of}

-- Accesses of which each that counts a packet as forwarded or dropped has one before it, or among so
-- many that are done already, that counted a packet as received.
data Paid : ℕ → List Effect → Type 0 where
  nothing : {k : ℕ} → Paid k []
  receives : {k : ℕ} {es : List Effect} → Paid (suc k) es → Paid k (counts_received ∷ es)
  forwards : {k : ℕ} {es : List Effect} → Paid k es → Paid (suc k) (counts_forwarded ∷ es)
  drops : {k : ℕ} {es : List Effect} → Paid k es → Paid (suc k) (counts_spoof ∷ es)
  strips : {k : ℕ} {es : List Effect} → Paid k es → Paid k (counts_stripped ∷ es)
  transmits :
      {k : ℕ} {es : List Effect} (buf : Bytes) (dst : SocketAddr)
      → Paid k es
      → Paid k (sends buf dst ∷ es)

data AllPaid : ℕ → List (List Effect) → Type 0 where
  no_task : AllPaid 0 []
  a_task :
      {j k : ℕ} {es : List Effect} {ess : List (List Effect)}
      → Paid j es
      → AllPaid k ess
      → AllPaid (j + k) (es ∷ ess)

-- One task among the others, which can be replaced.
record Among (front back : List (List Effect)) (es : List Effect) (k : ℕ) : Type 0 where
  own : ℕ
  others : ℕ
  total : k ≡ own + others
  paid : Paid own es
  replaced : (j : ℕ) (fs : List Effect) → Paid j fs → AllPaid (j + others) (front ++ fs ∷ back)

among :
    (front back : List (List Effect)) (es : List Effect) (k : ℕ)
    → AllPaid k (front ++ es ∷ back)
    → Among front back es k
among [] back es k (a_task {j} {k = m} p ps) = record {
  own = j;
  others = m;
  total = refl;
  paid = p;
  replaced = λ i fs q. a_task q ps;
}
among (f ∷ front) back es k (a_task {j} {k = m} p ps) =
    let r = among front back es m ps in
    record {
      own = r.own;
      others = j + r.others;
      total = omega (arith, r.total);
      paid = r.paid;
      replaced = λ i fs q.
          subst (λ t. AllPaid t (f ∷ (front ++ fs ∷ back))) (omega arith)
            (a_task p (r.replaced i fs q));
    }

-- The same sum.
same_sum : {j k : ℕ} {es : List Effect} → Paid j es → j ≡ k → Paid k es
same_sum {es} p e = subst (λ t. Paid t es) e p

-- More that is received already.
more_paid : (j : ℕ) {k : ℕ} {es : List Effect} → Paid k es → Paid (j + k) es
more_paid j nothing = nothing
more_paid j (receives p) = receives (same_sum (more_paid j p) (omega arith))
more_paid j (forwards p) = same_sum (forwards (more_paid j p)) (omega arith)
more_paid j (drops p) = same_sum (drops (more_paid j p)) (omega arith)
more_paid j (strips p) = strips (more_paid j p)
more_paid j (transmits buf dst p) = transmits buf dst (more_paid j p)

-- The first access is one task's.
first_access :
    {rest es : List Effect} (e : Effect) (own others : ℕ)
    → Paid own (e ∷ rest)
    → ((j : ℕ) → Paid j rest → Paid (j + others) es)
    → Paid (own + others) (e ∷ es)
first_access e own others (receives p) f = receives (same_sum (f (suc own) p) (omega arith))
first_access e own others (forwards {k} p) f = same_sum (forwards (f k p)) (omega arith)
first_access e own others (drops {k} p) f = same_sum (drops (f k p)) (omega arith)
first_access e own others (strips p) f = strips (f own p)
first_access e own others (transmits buf dst p) f = transmits buf dst (f own p)

-- Whatever the order.
interleaved-Paid :
    {ess : List (List Effect)} {es : List Effect} {k : ℕ}
    → Interleaves ess es
    → AllPaid k ess
    → Paid k es
interleaved-Paid all_done no_task = nothing
interleaved-Paid (one_done {ess} {es} h) (a_task {j} {k} p ps) = more_paid j (interleaved-Paid h ps)
interleaved-Paid {k} (next front back e rest {es} h) ps =
    let a = among front back (e ∷ rest) k ps in
    same_sum
      (first_access e a.own a.others a.paid (λ j q. interleaved-Paid h (a.replaced j rest q)))
      (sym a.total)

sending-Paid : (k : ℕ) (ctx : PipelineContext) → Paid k (sending ctx)
sending-Paid k ctx = elim (Option-cases ctx.dst_addr) [
  | inl n ↦ rw n nothing
  | inr (dst, e) ↦ rw e (transmits ctx.buffer dst nothing)
]

client4-Paid : (x : RelayResult Bool × Flow) → Paid 1 (after_v4_client x)
unfolding after_v4_client
client4-Paid (ok true, f) = forwards (sending-Paid 0 f.ctx)
client4-Paid (ok false, f) = nothing
client4-Paid (err x, f) = drops nothing

server4-Paid : (x : RelayResult Bool × Flow) → Paid 1 (after_v4_server x)
unfolding after_v4_server
server4-Paid (ok true, f) = forwards (strips (sending-Paid 0 f.ctx))
server4-Paid (ok false, f) = nothing
server4-Paid (err x, f) = nothing

v6-Paid : (x : RelayResult Bool × Flow) → Paid 1 (after_v6 x)
unfolding after_v6
v6-Paid (ok true, f) = forwards (sending-Paid 0 f.ctx)
v6-Paid (ok false, f) = nothing
v6-Paid (err x, f) = nothing

effects_v4-Paid :
    (d : Dhcproto) (t : V4Task) (data_bytes : Bytes) (src : SocketAddr)
    → Paid 0 (effects_v4 d t data_bytes src [])
unfolding effects_v4
effects_v4-Paid d t data_bytes src = elim (Result-cases (d.decode data_bytes)) [
  | inl (m, e) ↦ elim (Bool-cases (is_client4 (d.msg_type m))) [
    | inl y ↦ rw (e, y) (receives (client4-Paid _))
    | inr n ↦ rw (e, n) (receives (server4-Paid _))
  ]
  | inr (x, e) ↦ rw e (receives nothing)
]

effects_v6-Paid :
    (d : DhcprotoV6) (t : V6Task) (data_bytes : Bytes) (src : SocketAddr)
    → Paid 0 (effects_v6 d t data_bytes src [])
unfolding effects_v6
effects_v6-Paid d t data_bytes src = elim (Bool-cases (first_byte data_bytes == relay_repl)) [
  | inl y ↦ rw y (receives (v6-Paid _))
  | inr n ↦ elim (Result-cases (d.decode data_bytes)) [
    | inl (m, e) ↦ elim (Bool-cases (is_client6 (d.msg_type m))) [
      | inl y ↦ rw (n, e, y) (receives (v6-Paid _))
      | inr z ↦ rw (n, e, z) (receives nothing)
    ]
    | inr (x, e) ↦ rw (n, e) (receives nothing)
  ]
]

effects-Paid :
    (t : Task) (data_bytes : Bytes) (src : SocketAddr) → Paid 0 (effects t data_bytes src [])
effects-Paid (v4_task d t) data_bytes src = effects_v4-Paid d t data_bytes src
effects-Paid (v6_task d t) data_bytes src = effects_v6-Paid d t data_bytes src

effects_of-AllPaid : (arrivals : List Arrival) → AllPaid 0 (effects_of arrivals)
unfolding effects_of
effects_of-AllPaid [] = no_task
effects_of-AllPaid (a ∷ later) =
    a_task (effects-Paid a.task a.data_bytes a.src) (effects_of-AllPaid later)

seen-Paid :
    (seen later : List Effect) (k : ℕ) (s : RelayStats)
    → Paid k (seen ++ later)
    → s.packets_forwarded + s.packets_dropped_spoof + k ≤ s.packets_received
    → s.packets_received + length seen < 2 ^ 64
    → (stats_after seen s).packets_forwarded + (stats_after seen s).packets_dropped_spoof
      ≤ (stats_after seen s).packets_received
unfolding stats_after on_stats
seen-Paid [] later k s p h n = omega (arith, h)
seen-Paid (_ ∷ seen) later k s (receives p) h n =
    seen-Paid seen later (suc k) _ p (ground (arith, h, n)) (ground (arith, h, n))
seen-Paid (_ ∷ seen) later (suc k) s (forwards p) h n =
    seen-Paid seen later k _ p (ground (arith, h, n)) (ground (arith, h, n))
seen-Paid (_ ∷ seen) later (suc k) s (drops p) h n =
    seen-Paid seen later k _ p (ground (arith, h, n)) (ground (arith, h, n))
seen-Paid (_ ∷ seen) later k s (strips p) h n = seen-Paid seen later k _ p h (ground (arith, h, n))
seen-Paid (_ ∷ seen) later k s (transmits buf dst p) h n =
    seen-Paid seen later k _ p h (ground (arith, h, n))

-- However the tasks' accesses to the shared state interleave, at every moment between two of them,
-- with fewer than 2 ^ 64 done since the start, no more packets are counted as forwarded or as
-- dropped for a spoofed relay address than are counted as received.
pub received_first :
    (arrivals : List Arrival) (seen later : List Effect)
    → Interleaves (effects_of arrivals) (seen ++ later)
    → length seen < 2 ^ 64
    → (stats_after seen no_stats).packets_forwarded
        + (stats_after seen no_stats).packets_dropped_spoof
      ≤ (stats_after seen no_stats).packets_received
received_first arrivals seen later h n =
    seen-Paid seen later 0 no_stats (interleaved-Paid h (effects_of-AllPaid arrivals)) (omega arith)
      (omega (arith, n))
