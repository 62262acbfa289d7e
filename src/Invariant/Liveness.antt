-- ===== src/Invariant/Liveness.antt =====
-- What becomes of a subscription that nobody refreshes, over rounds of the main loop of src/ecmh.c.
use ecmh.Prelude.{
  ℕ, ◌+◌, ◌*◌, ◌^◌, ◌<◌, ◌≡◌, ◌⊎◌, refl, ◌∙◌, inl, inr, true, ◌||◌, ◌==◌, ltb, Option, none, some,
  List, [], ◌∷◌, All, arith, Bool-cases,
}
use ecmh.Addr.{In6Addr}
use ecmh.Subscr.{SubscrNode}
use ecmh.Groups.{subscription_timeout, robustness_factor}
use ecmh.Conf.{Env}
use ecmh.Mld.Quiet.{groups_of}
use ecmh.Mld.Listen.Members.{subscribed}
use ecmh.Mld.Listen.WellFormed.{HasRegistry}
use ecmh.Timeout.{age}
use ecmh.Timeout.Members.{if_live, timeout-subscribed}
use ecmh.Input.{Received, handleinterfaces}
use ecmh.Main.{Daemon, timeout_signal, main_round}
use ecmh.Invariant.Reachable.{Reach, Reach-HasRegistry, main_round-HasRegistry}

-- Packets that the host sends itself, or over loopback: the socket delivers them too.
abbrev pub IsOwn : Env × Received → Type 0
IsOwn (e, r) = (r.hatype == 772 || r.outgoing) ≡ true

-- SIGALRM, and a round of the loop in which a packet is received.
abbrev pub alarmed_round : Env × Received → Daemon → Daemon
alarmed_round (e, r) d = main_round e (some r) (timeout_signal d)

unfoldable pub alarmed_rounds : List (Env × Received) → Daemon → Daemon
alarmed_rounds [] d = d
alarmed_rounds (x ∷ xs) d = alarmed_rounds xs (alarmed_round x d)

module _ (k : In6Addr) (i : ℕ) (j : In6Addr) where
  abbrev entry_of : Daemon → Option SubscrNode
  entry_of d = subscribed (groups_of d.world) k i j

  alarmed_round-entry :
      (e : Env) (r : Received) (d : Daemon)
      → IsOwn (e, r)
      → HasRegistry d.world
      → entry_of (alarmed_round (e, r) d) ≡ if_live e.now (entry_of d)
  unfolding main_round timeout_signal handleinterfaces
  alarmed_round-entry e r d own v = rw own (timeout-subscribed e d.world k i j v)

  -- It is as it was, or gone.
  abbrev Fades : Option SubscrNode → Option SubscrNode → Type 0
  Fades old new = (new ≡ old) ⊎ (new ≡ none)

  if_live-Fades : (now : ℕ) (o : Option SubscrNode) → Fades o (if_live now o)
  if_live-Fades now none = inl refl
  if_live-Fades now (some s) =
      elim (Bool-cases (ltb (subscription_timeout * robustness_factor) (age now s.refreshtime))) [
        | inl dead ↦ rw dead (inr refl)
        | inr live ↦ rw live (inl refl)
      ]

  Fades-trans : (a b c : Option SubscrNode) → Fades a b → Fades b c → Fades a c
  Fades-trans a b c x (inr q) = inr q
  Fades-trans a b c (inl p) (inl q) = inl (q ∙ p)
  Fades-trans a b c (inr p) (inl q) = inr (q ∙ p)

  alarmed_rounds-Fades :
      (xs : List (Env × Received)) (d : Daemon)
      → All IsOwn xs
      → HasRegistry d.world
      → HasRegistry (alarmed_rounds xs d).world
        × Fades (entry_of d) (entry_of (alarmed_rounds xs d))
  unfolding alarmed_rounds timeout_signal
  alarmed_rounds-Fades [] d own v = (v, inl refl)
  alarmed_rounds-Fades ((e, r) ∷ xs) d own v =
      let after = alarmed_round (e, r) d in
      let kept = main_round-HasRegistry e (some r) (timeout_signal d) v in
      let one = alarmed_round-entry e r d own.0 v in
      let first : Fades (entry_of d) (entry_of after) = rw one (if_live-Fades e.now (entry_of d)) in
      let (registry, rest) = alarmed_rounds-Fades xs after own.1 kept in
      (registry, Fades-trans (entry_of d) (entry_of after) _ first rest)

  if_live-old :
      (now : ℕ) (s : SubscrNode) (o : Option SubscrNode)
      → s.refreshtime + 250 < now
      → now < 2 ^ 63
      → Fades (some s) o
      → if_live now o ≡ none
  if_live-old now s o h l (inr gone) = rw gone refl
  if_live-old now s o h l (inl same) = rw same (ground (arith, h, l))

  -- In every state that the daemon reaches: while it receives only packets of its own host, a
  -- subscription of that state is gone after each alarm and round of the loop that come more than
  -- 250 seconds after its last refresh, with a clock below 2^63, however many alarms and rounds come
  -- before.
  pub unrefreshed-ends :
      (d : Daemon) (s : SubscrNode) (xs : List (Env × Received)) (e : Env) (r : Received)
      → Reach d
      → subscribed (groups_of d.world) k i j ≡ some s
      → All IsOwn xs
      → IsOwn (e, r)
      → s.refreshtime + 250 < e.now
      → e.now < 2 ^ 63
      → subscribed (groups_of (alarmed_round (e, r) (alarmed_rounds xs d)).world) k i j ≡ none
  unrefreshed-ends d s xs e r reach there own own' h l =
      let (registry, fades) = alarmed_rounds-Fades xs d own (Reach-HasRegistry reach) in
      alarmed_round-entry e r (alarmed_rounds xs d) own' registry
      ∙ if_live-old e.now s (entry_of (alarmed_rounds xs d)) h l (rw there at fades)
