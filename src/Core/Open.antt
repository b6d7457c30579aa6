-- ===== src/Core/Open.antt =====
-- The connections that the registry of pkg/core/server.go keeps: each belongs to one agent and is open.
use mandau.Base.{
  ℕ, suc, ◌+◌, ◌-◌, ◌*◌, ◌≤◌, ◌<◌, ◌≡◌, refl, sym, ap, subst, ◌∙◌, inl, inr, String, Bool, true,
  false, Option, none, some, List, [], ◌∷◌, get, put, leb, eqb, if◌then◌else◌, ◌==◌, Result, ok,
  err, Option-cases, Bool-cases, arith, eq_iff, eqb_iff,
}
use mandau.Core.{
  online, AgentConnection, Core, new_core, second, registered_agent, agent_id_for, register_agent,
  heartbeat, update_agent_stacks, is_offline, monitor_agents, client_of,
}
use mandau.Core.Connection.{
  Dialing, awake, address_of, dial_agent, connected, fresh, with_client, get_agent_connection, Call,
  register, beat, connect, set_stacks, monitor, step, run,
}
use mandau.Core.Held.{
  times, held, held_by, held-put, held-monitor_each, held_of_get, held_of_two, times-some,
}

-- Every connection was dialled, and stands once at most: with one agent or with the closed ones.
abbrev Sound : Core → Type 0
Sound c =
    (i : ℕ)
    → (held i c.agents + times i c.closed ≤ 1)
      × (c.dialed ≤ i → held i c.agents + times i c.closed ≡ 0)

-- A call that sets an entry which holds no more than it did before is sound.
put-Sound :
    (c : Core) (k : String) (b : AgentConnection)
    → ((i : ℕ) → times i (client_of b.client) ≤ times i (held_by (get c.agents k)))
    → Sound c
    → Sound (record c { agents = put c.agents k b })
put-Sound c k b le h i = (
  omega (arith, held-put i c.agents k b, le i, (h i).0),
  λ d. omega (arith, held-put i c.agents k b, le i, (h i).1 d),
)

same_client-Sound :
    (c : Core) (k : String) (a b : AgentConnection)
    → get c.agents k ≡ some a
    → b.client ≡ a.client
    → Sound c
    → Sound (record c { agents = put c.agents k b })
same_client-Sound c k a b e f h =
    put-Sound c k b
      (λ i.
        subst (λ o. times i (client_of b.client) ≤ times i (held_by o)) (sym e)
          (subst (λ o. times i (client_of o) ≤ times i (client_of a.client)) (sym f) (omega arith)))
      h

-- A new connection was neither held nor closed before.
with_client-Sound :
    (c : Core) (id : String) (a : AgentConnection) (o : Option ℕ) (r : Result (Unit {0}))
    → Sound c
    → Sound (with_client c id a o r).0
with_client-Sound c id a (some i) r h = h
with_client-Sound c id a none (err e) h = h
with_client-Sound c id a none (ok u) h = λ i. (once i, λ d. none_yet i d)
  where
    put_fresh :
        (i : ℕ)
        → held i (put c.agents id (fresh c id a)) + times i (held_by (get c.agents id))
          ≡ held i c.agents + ((if eqb c.dialed i then 1 else 0) + 0)
    put_fresh i = held-put i c.agents id (fresh c id a)

    once : (i : ℕ) → held i (put c.agents id (fresh c id a)) + times i c.closed ≤ 1
    once i = elim (Bool-cases (eqb c.dialed i)) [
      | inl e ↦ omega (
        arith,
        put_fresh i,
        (h i).1 (omega (arith, (eqb_iff c.dialed i).0 e)),
        ap {B = ℕ} (λ b. (if b then 1 else 0)) e,
      )
      | inr e ↦ omega (arith, put_fresh i, (h i).0, ap {B = ℕ} (λ b. (if b then 1 else 0)) e)
    ]

    none_yet :
        (i : ℕ) → suc c.dialed ≤ i → held i (put c.agents id (fresh c id a)) + times i c.closed ≡ 0
    none_yet i d = ground (arith, put_fresh i, (h i).1 (omega arith))

same_client :
    (a b : AgentConnection) (offline_now recent : Bool)
    → (if offline_now
        then (if recent then some (record a { status = online }) else none)
        else some a)
      ≡ some b
    → b.client ≡ a.client
same_client a b true true h =
    let same : record a { status = online } ≡ b = cc h in ap (λ x. x.client) (sym same)
same_client a b true false h = cc
same_client a b false q h = let same : a ≡ b = cc h in ap (λ x. x.client) (sym same)

awake-client : (a b : AgentConnection) (now : ℕ) → awake a now ≡ some b → b.client ≡ a.client
unfolding awake
awake-client a b now h =
    same_client a b (is_offline a.status) (leb (now - a.last_seen) (30 * second)) h

connection-Sound :
    (env : Dialing) (c : Core) (id : String) (now : ℕ)
    → Sound c
    → Sound (get_agent_connection env c id now).0
unfolding get_agent_connection connected
connection-Sound env c id now h = elim (Option-cases (get c.agents id)) [
  | inl e ↦ rw (e, get_agent_connection) h
  | inr (a, e) ↦ elim (Option-cases (awake a now)) [
    | inl f ↦ rw (e, get_agent_connection) (rw f h)
    | inr (b, f) ↦
        rw (e, get_agent_connection)
          (rw (f, connected)
            (with_client-Sound (record c { agents = put c.agents id b }) id b b.client
              (dial_agent env id (address_of id b))
              (same_client-Sound c id a b e (awake-client a b now f) h)))
  ]
]

heartbeat-Sound : (c : Core) (id : String) (now : ℕ) → Sound c → Sound (heartbeat c id now).0
unfolding heartbeat
heartbeat-Sound c id now h = elim (Option-cases (get c.agents id)) [
  | inl e ↦ rw (e, heartbeat) h
  | inr (a, e) ↦
      rw (e, heartbeat)
        (same_client-Sound c id a (record a { last_seen = now; status = online }) e refl h)
]

set_stacks-Sound :
    (c : Core) (id : String) (stacks : List String)
    → Sound c
    → Sound (update_agent_stacks c id stacks).0
unfolding update_agent_stacks
set_stacks-Sound c id stacks h = elim (Option-cases (get c.agents id)) [
  | inl e ↦ rw (e, update_agent_stacks) h
  | inr (a, e) ↦
      rw (e, update_agent_stacks) (same_client-Sound c id a (record a { stacks = stacks }) e refl h)
]

step-Sound : (call : Call) (now : ℕ) (c : Core) → Sound c → Sound (step call now c)
unfolding step register_agent monitor_agents
step-Sound (register req) now c h =
    put-Sound c (agent_id_for req now) (registered_agent req now) (λ i. omega arith) h
step-Sound (beat id) now c h = heartbeat-Sound c id now h
step-Sound (connect env id) now c h = connection-Sound env c id now h
step-Sound (set_stacks id stacks) now c h = set_stacks-Sound c id stacks h
step-Sound monitor now c h = λ i. (
  omega (arith, held-monitor_each i now c.agents c.closed, (h i).0),
  λ d. omega (arith, held-monitor_each i now c.agents c.closed, (h i).1 d),
)

run-Sound : (calls : List (Call × ℕ)) (c : Core) → Sound c → Sound (run calls c)
unfolding run
run-Sound [] c h = h
run-Sound ((call, at) ∷ calls) c h = run-Sound calls (step call at c) (step-Sound call at c h)

new_core-Sound : Sound new_core
unfolding new_core
new_core-Sound i = (omega arith, λ d. omega arith)

-- After any calls on a new registry, a connection that an agent holds was dialled and has not been
-- closed.
pub run-client :
    (calls : List (Call × ℕ)) (id : String) (a : AgentConnection) (i : ℕ)
    → get (run calls new_core).agents id ≡ some a
    → a.client ≡ some i
    → (i < (run calls new_core).dialed) × (times i (run calls new_core).closed ≡ 0)
run-client calls id a i e f =
    let here = times-some i (run calls new_core).agents id a e f in
    let bound = held_of_get i (run calls new_core).agents id in
    let sound = run-Sound calls new_core new_core-Sound i in
    (ground (arith, here, bound, sound.1), omega (arith, here, bound, sound.0))

-- After any calls on a new registry, no two agents hold the same connection.
run-client_alone :
    (calls : List (Call × ℕ)) (id other : String) (a b : AgentConnection) (i : ℕ)
    → get (run calls new_core).agents id ≡ some a
    → a.client ≡ some i
    → get (run calls new_core).agents other ≡ some b
    → b.client ≡ some i
    → id ≡ other
run-client_alone calls id other a b i e f g q = elim (Bool-cases (id == other)) [
  | inl s ↦ (eq_iff id other).0 s
  | inr s ↦ absurd (
      omega (
        arith,
        times-some i (run calls new_core).agents id a e f,
        times-some i (run calls new_core).agents other b g q,
        held_of_two i (run calls new_core).agents id other
            (λ p. cc (sym s ∙ (eq_iff id other).1 p)),
        (run-Sound calls new_core new_core-Sound i).0,
      ))
]
