-- ===== src/Agent/Atomic/Orders.antt =====
-- Accesses to the state that the tasks of lib.rs share, in any order that keeps each task's own.
use dhcp_relay_agent.Common.{
  List, [], ◌∷◌, ◌++◌, Bytes, ◌≡◌, ◌∙◌, refl, sym, ap, arith, append_assoc, nat_eq,
}
use mathlib.Core.List.{Perm, perm_middle}
use mathlib.Core.List.Perm
use dhcp_relay_agent.Net.{SocketAddr}
use dhcp_relay_agent.Agent.{RelayStats}
use dhcp_relay_agent.Agent.Atomic.{Effect, sends, on_stats, stats_after, packets, sent_by}

-- The accesses in an order that keeps that of each task's own.
pub data Interleaves : List (List Effect) → List Effect → Type 0 where
  all_done : Interleaves [] []
  one_done :
      {ess : List (List Effect)} {es : List Effect} → Interleaves ess es → Interleaves ([] ∷ ess) es
  next :
      (front back : List (List Effect)) (e : Effect) (rest : List Effect) {es : List Effect}
      → Interleaves (front ++ rest ∷ back) es
      → Interleaves (front ++ (e ∷ rest) ∷ back) (e ∷ es)

abbrev pub joined : List (List Effect) → List Effect
joined [] = []
joined (es ∷ ess) = es ++ joined ess

joined-append : (xss yss : List (List Effect)) → joined (xss ++ yss) ≡ joined xss ++ joined yss
joined-append [] yss = refl
joined-append (xs ∷ xss) yss =
    ap (λ t. xs ++ t) (joined-append xss yss) ∙ sym (append_assoc xs (joined xss) (joined yss))

-- Two additions to the counters can be swapped.
on_stats-swap :
    (e f : Effect) (s : RelayStats) → on_stats e (on_stats f s) ≡ on_stats f (on_stats e s)
unfolding on_stats
on_stats-swap e f s = ground arith

stats_after-middle :
    (e : Effect) (xs ys : List Effect) (s : RelayStats)
    → stats_after (xs ++ e ∷ ys) s ≡ stats_after (e ∷ (xs ++ ys)) s
unfolding stats_after
stats_after-middle e [] ys s = refl
stats_after-middle e (x ∷ xs) ys s =
    stats_after-middle e xs ys (on_stats x s) ∙ ap (stats_after (xs ++ ys)) (on_stats-swap e x s)

-- One task's next access is the first.
joined-next :
    (front back : List (List Effect)) (e : Effect) (rest : List Effect)
    → (joined (front ++ (e ∷ rest) ∷ back) ≡ joined front ++ e ∷ (rest ++ joined back))
      × (joined (front ++ rest ∷ back) ≡ joined front ++ (rest ++ joined back))
joined-next front back e rest =
    (joined-append front ((e ∷ rest) ∷ back), joined-append front (rest ∷ back))

pub stats_after-Interleaves :
    {ess : List (List Effect)} {es : List Effect} (s : RelayStats)
    → Interleaves ess es
    → stats_after es s ≡ stats_after (joined ess) s
unfolding stats_after
stats_after-Interleaves s all_done = refl
stats_after-Interleaves s (one_done h) = stats_after-Interleaves s h
stats_after-Interleaves s (next front back e rest {es} h) =
    let (before, after) = joined-next front back e rest in
    stats_after-Interleaves (on_stats e s) h
    ∙ ap (λ t. stats_after t (on_stats e s)) after
    ∙ sym (stats_after-middle e (joined front) (rest ++ joined back) s)
    ∙ ap (λ t. stats_after t s) (sym before)

pub sent_by-append : (xs ys : List Effect) → sent_by (xs ++ ys) ≡ sent_by xs ++ sent_by ys
unfolding sent_by
sent_by-append [] ys = refl
sent_by-append (x ∷ xs) ys =
    ap (λ t. packets x ++ t) (sent_by-append xs ys)
    ∙ sym (append_assoc (packets x) (sent_by xs) (sent_by ys))

packets-middle :
    (e : Effect) (xs ys : List (Bytes × SocketAddr))
    → Perm (xs ++ (packets e ++ ys)) (packets e ++ (xs ++ ys))
packets-middle (sends buf dst) xs ys = perm_middle xs ys
packets-middle e xs ys = Perm.refl (xs ++ ys)

sent_by-middle :
    (e : Effect) (xs ys : List Effect)
    → Perm (sent_by (xs ++ e ∷ ys)) (packets e ++ sent_by (xs ++ ys))
unfolding sent_by
sent_by-middle e xs ys =
    rw (sent_by-append xs (e ∷ ys), sent_by-append xs ys)
      (packets-middle e (sent_by xs) (sent_by ys))

pub sent_by-Interleaves :
    {ess : List (List Effect)} {es : List Effect}
    → Interleaves ess es
    → Perm (sent_by es) (sent_by (joined ess))
unfolding sent_by
sent_by-Interleaves all_done = Perm.refl []
sent_by-Interleaves (one_done h) = sent_by-Interleaves h
sent_by-Interleaves (next front back e rest {es} h) =
    let (before, after) = joined-next front back e rest in
    Perm.trans (Perm.append_left (packets e) (sent_by-Interleaves h))
      (rw (before, after) (Perm.symm (sent_by-middle e (joined front) (rest ++ joined back))))

-- Two tasks whose accesses alternate.
abbrev pub alternate : List Effect → List Effect → List Effect
alternate [] fs = fs
alternate (e ∷ es) [] = e ∷ es
alternate (e ∷ es) (f ∷ fs) = e ∷ f ∷ alternate es fs

alone-Interleaves : (es : List Effect) → Interleaves (es ∷ []) es
alone-Interleaves [] = one_done all_done
alone-Interleaves (e ∷ es) = next [] [] e es (alone-Interleaves es)

first-Interleaves : (es : List Effect) → Interleaves (es ∷ [] ∷ []) es
first-Interleaves [] = one_done (one_done all_done)
first-Interleaves (e ∷ es) = next [] ([] ∷ []) e es (first-Interleaves es)

pub alternate-Interleaves : (es fs : List Effect) → Interleaves (es ∷ fs ∷ []) (alternate es fs)
alternate-Interleaves [] fs = one_done (alone-Interleaves fs)
alternate-Interleaves (e ∷ es) [] = first-Interleaves (e ∷ es)
alternate-Interleaves (e ∷ es) (f ∷ fs) =
    next [] (_ ∷ []) e es (next (es ∷ []) [] f fs (alternate-Interleaves es fs))
