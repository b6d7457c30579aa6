-- ===== src/Core/Alive.antt =====
-- What the registry of pkg/core/server.go says of one agent, its last sign of life and its status,
-- against a machine that knows nothing else.
use mandau.Base.{
  ℕ, ◌+◌, ◌-◌, ◌*◌, ◌^◌, ◌≡◌, refl, sym, ap, subst, ◌∙◌, inl, inr, String, Bool, true, false,
  Option, none, some, List, [], ◌∷◌, ◌++◌, get, put, get-put, ltb, if◌then◌else◌, ◌==◌, Result, ok,
  err, Option-cases, Bool-cases, arith, Map, eq_iff,
}
use mandau.Core.{
  AgentStatus, online, offline, AgentConnection, Core, new_core, second, registered_agent,
  agent_id_for, register_agent, heartbeat, update_agent_stacks, is_offline, monitor_each,
  monitor_agents, checked_status, dropped_client, stale_client,
}
use mandau.Core.Connection.{
  Dialing, address_of, dial_agent, connected, fresh, with_client, get_agent_connection, Call,
  register, beat, connect, set_stacks, monitor, step, run, Timed,
}
use mandau.Core.Offline.{
  AllSettled, AllSettled-later, awake_of_Settled, step-AllSettled, new_core-AllSettled,
}

-- The time of the last registration or heartbeat, and the status.
abbrev pub Life : Type 0
Life = Option (ℕ × AgentStatus)

abbrev pub life_of : Option AgentConnection → Life
life_of none = none
life_of (some a) = some (a.last_seen, a.status)

-- What the registry says of an agent.
abbrev pub life : Core → String → Life
life c id = life_of (get c.agents id)

abbrev beaten : ℕ → Life → Life
beaten now none = none
beaten now (some (seen, s)) = some (now, online)

abbrev ticked : ℕ → Life → Life
ticked now none = none
ticked now (some (seen, s)) =
    if ltb (seen + 90 * 10 ^ 9) now then some (seen, offline) else some (seen, s)

-- The machine of one agent: a registration or a heartbeat of its own puts it online, a tick of the
-- monitor over 90 seconds later puts it offline, and nothing else has an effect.
unfoldable pub lives : String → Call → ℕ → Life → Life
lives id (register req) now l = if agent_id_for req now == id then some (now, online) else l
lives id (beat i) now l = if i == id then beaten now l else l
lives id (connect env i) now l = l
lives id (set_stacks i stacks) now l = l
lives id monitor now l = ticked now l

unfoldable pub lived : String → List (Call × ℕ) → Life → Life
unfolding lives
lived id [] l = l
lived id ((call, now) ∷ calls) l = lived id calls (lives id call now l)

life_of-dropped :
    (t : Bool) (a : AgentConnection)
    → life_of (some (if t then record a { client = none } else a)) ≡ life_of (some a)
life_of-dropped true a = refl
life_of-dropped false a = refl

life_of-status :
    (t : Bool) (a : AgentConnection)
    → life_of (some (if t then record a { status = offline } else a))
      ≡ (if t then some (a.last_seen, offline) else some (a.last_seen, a.status))
life_of-status true a = refl
life_of-status false a = refl

life_of-checked :
    (now : ℕ) (a : AgentConnection)
    → life_of (some (dropped_client (checked_status now a))) ≡ ticked now (life_of (some a))
life_of-checked now a =
    life_of-dropped (is_offline (checked_status now a).status) (checked_status now a)
    ∙ life_of-status (ltb (90 * second) (now - a.last_seen)) a
    ∙ ap (λ t. if t then some (a.last_seen, offline) else some (a.last_seen, a.status)) late
  where
    late : ltb (90 * second) (now - a.last_seen) ≡ ltb (a.last_seen + 90 * 10 ^ 9) now
    late = ground arith

life-monitor_each :
    (now : ℕ) (m : Map AgentConnection) (closed : List ℕ) (k : String)
    → life_of (get (monitor_each now m closed).0 k) ≡ ticked now (life_of (get m k))
unfolding get monitor_each
life-monitor_each now [] closed k = refl
life-monitor_each now ((j, a) ∷ m) closed k = elim (Bool-cases (j == k)) [
  | inl e ↦ rw e (life_of-checked now a)
  | inr e ↦ rw e (life-monitor_each now m (stale_client (checked_status now a) ++ closed) k)
]

-- Overwriting an agent by one with the same life changes no life.
life-put :
    (m : Map AgentConnection) (i k : String) (b : AgentConnection)
    → life_of (get (put m i b) k) ≡ (if i == k then life_of (some b) else life_of (get m k))
life-put m i k b = elim (Bool-cases (i == k)) [
  | inl e ↦ rw (get-put m i k b, e) refl
  | inr e ↦ rw (get-put m i k b, e) refl
]

life-put_same :
    (m : Map AgentConnection) (i k : String) (b : AgentConnection)
    → life_of (get m i) ≡ life_of (some b)
    → life_of (get (put m i b) k) ≡ life_of (get m k)
life-put_same m i k b h = elim (Bool-cases (i == k)) [
  | inl e ↦ rw (life-put m i k b, e) (sym h ∙ ap (λ j. life_of (get m j)) ((eq_iff i k).0 e))
  | inr e ↦ rw (life-put m i k b, e) refl
]

life-with_client :
    (c : Core) (id k : String) (a : AgentConnection) (o : Option ℕ) (r : Result (Unit {0}))
    → life_of (get c.agents id) ≡ life_of (some a)
    → life (with_client c id a o r).0 k ≡ life c k
life-with_client c id k a (some i) r h = refl
life-with_client c id k a none (err e) h = refl
life-with_client c id k a none (ok u) h = life-put_same c.agents id k (fresh c id a) h

life-connect :
    (env : Dialing) (c : Core) (i k : String) (now : ℕ)
    → AllSettled now c
    → life (get_agent_connection env c i now).0 k ≡ life c k
unfolding get_agent_connection connected
life-connect env c i k now h = elim (Option-cases (get c.agents i)) [
  | inl e ↦ rw (e, get_agent_connection) refl
  | inr (a, e) ↦ elim (awake_of_Settled now a (h i a e)) [
    | inl (o, f) ↦ rw (e, f, get_agent_connection) refl
    | inr (n, f) ↦
        rw (e, f, get_agent_connection, connected)
          (life-with_client (record c { agents = put c.agents i a }) i k a a.client
              (dial_agent env i (address_of i a))
              (life-put_same c.agents i i a (ap life_of e) ∙ ap life_of e)
            ∙ life-put_same c.agents i k a (ap life_of e))
  ]
]

life-beat :
    (c : Core) (i k : String) (now : ℕ)
    → life (heartbeat c i now).0 k ≡ (if i == k then beaten now (life c k) else life c k)
unfolding heartbeat
life-beat c i k now = elim (Option-cases (get c.agents i)) [
  | inl e ↦
      rw (e, heartbeat)
        (elim (Bool-cases (i == k)) [
          | inl t ↦ rw (t, subst (λ j. get c.agents j ≡ none) ((eq_iff i k).0 t) e) refl
          | inr t ↦ rw t refl
        ])
  | inr (a, e) ↦
      rw (e, heartbeat)
        (life-put c.agents i k (record a { last_seen = now; status = online })
          ∙ elim (Bool-cases (i == k)) [
            | inl t ↦ rw (t, subst (λ j. get c.agents j ≡ some a) ((eq_iff i k).0 t) e) refl
            | inr t ↦ rw t refl
          ])
]

life-set_stacks :
    (c : Core) (i k : String) (stacks : List String)
    → life (update_agent_stacks c i stacks).0 k ≡ life c k
unfolding update_agent_stacks
life-set_stacks c i k stacks = elim (Option-cases (get c.agents i)) [
  | inl e ↦ rw (e, update_agent_stacks) refl
  | inr (a, e) ↦
      rw (e, update_agent_stacks)
        (life-put_same c.agents i k (record a { stacks = stacks }) (ap life_of e))
]

life-step :
    (call : Call) (now : ℕ) (c : Core) (id : String)
    → AllSettled now c
    → life (step call now c) id ≡ lives id call now (life c id)
unfolding step register_agent monitor_agents lives
life-step (register req) now c id h =
    life-put c.agents (agent_id_for req now) id (registered_agent req now)
life-step (beat i) now c id h = life-beat c i id now
life-step (connect env i) now c id h = life-connect env c i id now h
life-step (set_stacks i stacks) now c id h = life-set_stacks c i id stacks
life-step monitor now c id h = life-monitor_each now c.agents c.closed id

life-run :
    (calls : List (Call × ℕ)) (start now : ℕ) (c : Core) (id : String)
    → Timed start calls now
    → AllSettled start c
    → life (run calls c) id ≡ lived id calls (life c id)
unfolding run lived
life-run [] start now c id t h = refl
life-run ((call, at) ∷ calls) start now c id t h =
    let here : AllSettled at c = AllSettled-later start at c t.0 h in
    life-run calls at now (step call at c) id t.1 (step-AllSettled call at c here)
    ∙ ap (lived id calls) (life-step call at c id here)

-- After any calls on a new registry at times that do not go back, the time and the status that the
-- registry holds for an agent, or that it holds none, are those of the machine of that one agent.
pub run-lived :
    (calls : List (Call × ℕ)) (now : ℕ) (id : String)
    → Timed 0 calls now
    → life (run calls new_core) id ≡ lived id calls none
unfolding new_core get
run-lived calls now id t = life-run calls 0 now new_core id t (new_core-AllSettled 0)
