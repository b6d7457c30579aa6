-- ===== src/Core/Offline.antt =====
-- Which agents the registry of pkg/core/server.go holds offline, and what `getAgentConnection` makes
-- of them.
use mandau.Base.{
  ℕ, ◌+◌, ◌-◌, ◌*◌, ◌^◌, ◌≤◌, ◌<◌, ◌≡◌, ◌≢◌, refl, sym, ap, subst, ◌∙◌, ◌⊎◌, inl, inr, String, true,
  false, Option, none, some, List, [], ◌∷◌, ◌++◌, get, put, ltb, leb, if◌then◌else◌, ◌==◌, Result,
  ok, err, ◌<>◌, Each, Each-put, Option-cases, Bool-cases, arith, Map,
}
use mandau.Core.{
  AgentStatus, online, offline, error, AgentConnection, Core, new_core, second, registered_agent,
  agent_id_for, register_agent, heartbeat, update_agent_stacks, is_offline, monitor_each,
  monitor_agents, checked_status, dropped_client, stale_client,
}
use mandau.Core.Connection.{
  Dialing, awake, address_of, dial_agent, connected, fresh, with_client, get_agent_connection, Call,
  register, beat, connect, set_stacks, monitor, step, run, Timed,
}

-- Seen by now; and one held offline has been silent for over 90 seconds and has no connection.
abbrev Settled : ℕ → AgentConnection → Type 0
Settled now a =
    (a.last_seen ≤ now)
    × (a.status ≡ offline → (a.last_seen + 90 * 10 ^ 9 < now) × (a.client ≡ none))

abbrev pub AllSettled : ℕ → Core → Type 0
AllSettled now c = Each (λ k a. Settled now a) c.agents

pub AllSettled-later : (s t : ℕ) (c : Core) → s ≤ t → AllSettled s c → AllSettled t c
AllSettled-later s t c h p k a e =
    let (seen, q) = p k a e in (omega arith, λ o. (omega (arith, (q o).0), (q o).1))

dropped-Settled : (now : ℕ) (a : AgentConnection) → Settled now a → Settled now (dropped_client a)
dropped-Settled now a h = elim (Bool-cases (is_offline a.status)) [
  | inl e ↦
      subst (Settled now) (sym (ap (λ b. if b then record a { client = none } else a) e))
        (h.0, λ o. ((h.1 o).0, refl))
  | inr e ↦ subst (Settled now) (sym (ap (λ b. if b then record a { client = none } else a) e)) h
]

abbrev checked : ℕ → AgentConnection → AgentConnection
checked now a = dropped_client (checked_status now a)

checked_stale :
    (now : ℕ) (a : AgentConnection)
    → ltb (90 * second) (now - a.last_seen) ≡ true
    → checked now a ≡ record a { status = offline; client = none }
checked_stale now a e = ap (λ b. dropped_client (if b then record a { status = offline } else a)) e

checked_fresh :
    (now : ℕ) (a : AgentConnection)
    → ltb (90 * second) (now - a.last_seen) ≡ false
    → checked now a ≡ dropped_client a
checked_fresh now a e = ap (λ b. dropped_client (if b then record a { status = offline } else a)) e

checked-Settled : (now : ℕ) (a : AgentConnection) → Settled now a → Settled now (checked now a)
checked-Settled now a h = elim (Bool-cases (ltb (90 * second) (now - a.last_seen))) [
  | inl e ↦ subst (Settled now) (sym (checked_stale now a e)) (h.0, λ o. (ground arith, refl))
  | inr e ↦ subst (Settled now) (sym (checked_fresh now a e)) (dropped-Settled now a h)
]

-- An agent after a round of the monitor is one before it, checked.
get-monitor_each :
    (now : ℕ) (m : Map AgentConnection) (closed : List ℕ) (k : String) (b : AgentConnection)
    → get (monitor_each now m closed).0 k ≡ some b
    → (a : AgentConnection) × (get m k ≡ some a) × (b ≡ checked now a)
unfolding get monitor_each
get-monitor_each now [] closed k b h = cc
get-monitor_each now ((j, a) ∷ m) closed k b h = elim (Bool-cases (j == k)) [
  | inl e ↦
      let same : checked now a ≡ b = cc (
        sym (
          ap
            (λ t.
              if t
              then some (checked now a)
              else get (monitor_each now m (stale_client (checked_status now a) ++ closed)).0 k)
            e)
        ∙ h) in
      (a, rw e refl, sym same)
  | inr e ↦ rw e (
      get-monitor_each now m (stale_client (checked_status now a) ++ closed) k b (
        sym (
          ap
            (λ t.
              if t
              then some (checked now a)
              else get (monitor_each now m (stale_client (checked_status now a) ++ closed)).0 k)
            e)
        ∙ h))
]

with_client-AllSettled :
    (c : Core) (id : String) (a : AgentConnection) (o : Option ℕ) (r : Result (Unit {0})) (now : ℕ)
    → a.status ≢ offline
    → Settled now a
    → AllSettled now c
    → AllSettled now (with_client c id a o r).0
with_client-AllSettled c id a (some i) r now n s h = h
with_client-AllSettled c id a none (err e) now n s h = h
with_client-AllSettled c id a none (ok u) now n s h =
    Each-put (λ k b. Settled now b) c.agents id (fresh c id a) (s.0, λ o. absurd (n o)) h

offline_of_test : (s : AgentStatus) → is_offline s ≡ true → s ≡ offline
offline_of_test online h = cc
offline_of_test offline h = refl
offline_of_test error h = cc

-- An agent that the registry holds offline stays so for `getAgentConnection`: it is silent for too long.
pub awake_of_Settled :
    (now : ℕ) (a : AgentConnection)
    → Settled now a
    → ((a.status ≡ offline) × (awake a now ≡ none))
      ⊎ ((a.status ≢ offline) × (awake a now ≡ some a))
unfolding awake
awake_of_Settled now a h = elim (Bool-cases (is_offline a.status)) [
  | inl e ↦ inl (
    offline_of_test a.status e,
    ap
          (λ b.
            if b
            then (if leb (now - a.last_seen) (30 * second)
                then some (record a { status = online })
                else none)
            else some a)
          e
        ∙ ap (λ b. if b then some (record a { status = online }) else none)
            (long_ago (h.1 (offline_of_test a.status e)).0),
  )
  | inr e ↦ inr (
    λ o. cc (sym e ∙ ap is_offline o),
    ap
        (λ b.
          if b
          then (if leb (now - a.last_seen) (30 * second)
              then some (record a { status = online })
              else none)
          else some a)
        e,
  )
]
  where
    long_ago : a.last_seen + 90 * 10 ^ 9 < now → leb (now - a.last_seen) (30 * second) ≡ false
    long_ago q = ground arith

connection-AllSettled :
    (env : Dialing) (c : Core) (id : String) (now : ℕ)
    → AllSettled now c
    → AllSettled now (get_agent_connection env c id now).0
unfolding get_agent_connection connected
connection-AllSettled env c id now h = elim (Option-cases (get c.agents id)) [
  | inl e ↦ rw (e, get_agent_connection) h
  | inr (a, e) ↦ elim (awake_of_Settled now a (h id a e)) [
    | inl (o, f) ↦ rw (e, f, get_agent_connection) h
    | inr (n, f) ↦
        rw (e, f, get_agent_connection, connected)
          (with_client-AllSettled (record c { agents = put c.agents id a }) id a a.client
            (dial_agent env id (address_of id a)) now n (h id a e)
            (Each-put (λ k b. Settled now b) c.agents id a (h id a e) h))
  ]
]

heartbeat-AllSettled :
    (c : Core) (id : String) (now : ℕ) → AllSettled now c → AllSettled now (heartbeat c id now).0
unfolding heartbeat
heartbeat-AllSettled c id now h = elim (Option-cases (get c.agents id)) [
  | inl e ↦ rw (e, heartbeat) h
  | inr (a, e) ↦
      rw (e, heartbeat)
        (Each-put (λ k b. Settled now b) c.agents id (record a { last_seen = now; status = online })
          (omega arith, λ o. cc) h)
]

set_stacks-AllSettled :
    (c : Core) (id : String) (stacks : List String) (now : ℕ)
    → AllSettled now c
    → AllSettled now (update_agent_stacks c id stacks).0
unfolding update_agent_stacks
set_stacks-AllSettled c id stacks now h = elim (Option-cases (get c.agents id)) [
  | inl e ↦ rw (e, update_agent_stacks) h
  | inr (a, e) ↦
      rw (e, update_agent_stacks)
        (Each-put (λ k b. Settled now b) c.agents id (record a { stacks = stacks }) (h id a e) h)
]

pub step-AllSettled :
    (call : Call) (now : ℕ) (c : Core) → AllSettled now c → AllSettled now (step call now c)
unfolding step register_agent monitor_agents
step-AllSettled (register req) now c h =
    Each-put (λ k b. Settled now b) c.agents (agent_id_for req now) (registered_agent req now)
      (omega arith, λ o. cc) h
step-AllSettled (beat id) now c h = heartbeat-AllSettled c id now h
step-AllSettled (connect env id) now c h = connection-AllSettled env c id now h
step-AllSettled (set_stacks id stacks) now c h = set_stacks-AllSettled c id stacks now h
step-AllSettled monitor now c h = λ k b e.
    let (a, f, g) = get-monitor_each now c.agents c.closed k b e in
    subst (Settled now) (sym g) (checked-Settled now a (h k a f))

run-AllSettled :
    (calls : List (Call × ℕ)) (start now : ℕ) (c : Core)
    → Timed start calls now
    → AllSettled start c
    → AllSettled now (run calls c)
unfolding run
run-AllSettled [] start now c t h = AllSettled-later start now c t h
run-AllSettled ((call, at) ∷ calls) start now c t h =
    run-AllSettled calls at now (step call at c) t.1
      (step-AllSettled call at c (AllSettled-later start at c t.0 h))

pub new_core-AllSettled : (now : ℕ) → AllSettled now new_core
unfolding new_core get
new_core-AllSettled now k a e = cc

run-Settled :
    (calls : List (Call × ℕ)) (now : ℕ) (id : String) (a : AgentConnection)
    → Timed 0 calls now
    → get (run calls new_core).agents id ≡ some a
    → Settled now a
run-Settled calls now id a t e =
    run-AllSettled calls 0 now new_core t (new_core-AllSettled 0) id a e

-- After any calls on a new registry at times that do not go back, an agent that is held offline was
-- last seen over 90 seconds before and has no connection.
pub run-offline :
    (calls : List (Call × ℕ)) (now : ℕ) (id : String) (a : AgentConnection)
    → Timed 0 calls now
    → get (run calls new_core).agents id ≡ some a
    → a.status ≡ offline
    → (a.last_seen + 90 * 10 ^ 9 < now) × (a.client ≡ none)
run-offline calls now id a t e o = (run-Settled calls now id a t e).1 o

-- `getAgentConnection` never brings an agent back: after any calls at times that do not go back, for
-- an agent that is held offline it gives the error that it is offline, changes nothing and does not
-- dial, so its branch for a heartbeat in the last 30 seconds is not taken.
pub get_agent_connection-offline :
    (calls : List (Call × ℕ)) (now : ℕ) (id : String) (a : AgentConnection) (env : Dialing)
    → Timed 0 calls now
    → get (run calls new_core).agents id ≡ some a
    → a.status ≡ offline
    → get_agent_connection env (run calls new_core) id now
      ≡ (run calls new_core, err ("agent offline: " <> id))
unfolding get_agent_connection
get_agent_connection-offline calls now id a env t e o =
    elim (awake_of_Settled now a (run-Settled calls now id a t e)) [
      | inl (p, f) ↦ rw (e, get_agent_connection) (rw f refl)
      | inr (n, f) ↦ absurd (n o)
    ]
