-- ===== src/Agent/Spawn/Loop.antt =====
-- The loop over the enabled interfaces in `spawn_v4_tasks` and `spawn_v6_tasks` (lib.rs), for any
-- way to start one task.
use dhcp_relay_agent.Common.{
  ℕ, zero, suc, ◌+◌, true, false, List, [], ◌∷◌, ◌++◌, map, ok, err, ◌≡◌, ◌∙◌, refl, ap, ap₂, arith,
  length, append_assoc, append-nil, length-append, inl, inr, Bool-cases,
}
use dhcp_relay_agent.Net.{SocketAddr}
use dhcp_relay_agent.Error.{RelayError, RelayResult}
use dhcp_relay_agent.Config.{InterfaceConfig}
use dhcp_relay_agent.Agent.Receive.{Task}
use dhcp_relay_agent.Agent.Spawn.{Runtime, Spawning, and_then, spawn_each}

-- Consecutive places.
abbrev pub places : ℕ → ℕ → List ℕ
places from zero = []
places from (suc n) = from ∷ places (suc from) n

pub places-append : (n k from : ℕ) → places from n ++ places (n + from) k ≡ places from (n + k)
places-append zero k from =
    ap (λ n. places n k) {x = 0 + from} {y = from} (omega arith)
    ∙ ap (places from) {x = k} {y = 0 + k} (omega arith)
places-append (suc n) k from =
    ap (λ t. from ∷ t)
      (ap (λ m. places (suc from) n ++ places m k) {x = suc n + from} {y = n + suc from}
          (omega arith)
        ∙ places-append n k (suc from))
    ∙ ap (places from) {x = suc (n + k)} {y = suc n + k} (omega arith)

module _ {L : Type 0} (R : L → InterfaceConfig → Type 0) where
  -- The enabled interfaces are these, in their order.
  pub data Enabled : List L → List InterfaceConfig → Type 0 where
    finished : Enabled [] []
    skipped :
        {ls : List L} {i : InterfaceConfig} {is : List InterfaceConfig}
        → i.enabled ≡ false
        → Enabled ls is
        → Enabled ls (i ∷ is)
    served :
        {l : L} {ls : List L} {i : InterfaceConfig} {is : List InterfaceConfig}
        → i.enabled ≡ true
        → R l i
        → Enabled ls is
        → Enabled (l ∷ ls) (i ∷ is)

module _ {L : Type 0} (addr : L → SocketAddr) (task : L → Task) where
  -- What the runtime is after these were started.
  abbrev pub grown : List L → Runtime → Runtime
  grown ls rt = record { tried = rt.tried ++ map addr ls; tasks = rt.tasks ++ map task ls }

  grown-append :
      (l : L) (ls : List L) (rt : Runtime) → grown ls (grown (l ∷ []) rt) ≡ grown (l ∷ ls) rt
  grown-append l ls rt = ground (
    arith,
    append_assoc rt.tried (addr l ∷ []) (map addr ls),
    append_assoc rt.tasks (task l ∷ []) (map task ls),
  )

  module _ (R : L → InterfaceConfig → Type 0) (one : InterfaceConfig → Spawning ℕ)
      (starts : (l : L) (i : InterfaceConfig) (rt : Runtime)
        → R l i
        → one i rt ≡ (ok (length rt.tasks), grown (l ∷ []) rt)) where
    -- Every enabled interface has a task, and every task a handle.
    pub spawn_each-Enabled :
        {ls : List L} {is : List InterfaceConfig} (rest : List InterfaceConfig) (hs : List ℕ)
        (rt : Runtime)
        → Enabled R ls is
        → spawn_each one (is ++ rest) hs rt
          ≡ spawn_each one rest (hs ++ places (length rt.tasks) (length ls)) (grown ls rt)
    unfolding spawn_each
    spawn_each-Enabled rest hs rt finished =
        ground (arith, append-nil hs, append-nil rt.tried, append-nil rt.tasks)
    spawn_each-Enabled rest hs rt (skipped off e) = rw off (spawn_each-Enabled rest hs rt e)
    spawn_each-Enabled rest hs rt (served {l} {ls} {i} {is} on r e) =
        let at = length rt.tasks in
        let more = length-append rt.tasks (task l ∷ []) in
        rw (on, starts l i rt r)
          (spawn_each-Enabled rest (hs ++ at ∷ []) (grown (l ∷ []) rt) e
            ∙ ap₂ (spawn_each one rest)
                (ground (arith, more, append_assoc hs (at ∷ []) (places (suc at) (length ls))))
                (grown-append l ls rt))

-- A chain that ends well has gone through its first step.
pub and_then-ok :
    {A B : Type 0} (m : RelayResult A × Runtime) (f : A → Spawning B) (b : B)
    → (and_then m f).0 ≡ ok b
    → (a : A) × (m.0 ≡ ok a) × ((f a m.1).0 ≡ ok b)
and_then-ok (ok a, rt) f b e = (a, refl, e)
and_then-ok (err x, rt) f b e = ground (arith, e)

-- If the loop ends well, then each enabled interface had its task started.
pub spawn_each-ok :
    (one : InterfaceConfig → Spawning ℕ) (i : InterfaceConfig) (before after : List InterfaceConfig)
    (hs handles : List ℕ) (rt : Runtime)
    → i.enabled ≡ true
    → (spawn_each one (before ++ i ∷ after) hs rt).0 ≡ ok handles
    → (rt' : Runtime) × (handle : ℕ) × ((one i rt').0 ≡ ok handle)
unfolding spawn_each
spawn_each-ok one i [] after hs handles rt on e =
    let (handle, h, _) = and_then-ok (one i rt) _ handles (rw on at e) in (rt, handle, h)
spawn_each-ok one i (b ∷ before) after hs handles rt on e = elim (Bool-cases b.enabled) [
  | inl b_on ↦
      let (handle, _, h) = and_then-ok (one b rt) _ handles (rw b_on at e) in
      spawn_each-ok one i before after (hs ++ handle ∷ []) handles (one b rt).1 on h
  | inr off ↦ spawn_each-ok one i before after hs handles rt on (rw off at e)
]

-- The loop fails where one task does.
pub spawn_each-fails :
    (one : InterfaceConfig → Spawning ℕ) (i : InterfaceConfig) (back : List InterfaceConfig)
    (hs : List ℕ) (rt : Runtime) (x : RelayError)
    → i.enabled ≡ true
    → one i rt ≡ (err x, rt)
    → spawn_each one (i ∷ back) hs rt ≡ (err x, rt)
unfolding spawn_each
spawn_each-fails one i back hs rt x on e = rw (on, e)
