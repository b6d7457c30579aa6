-- ===== src/Core/Held.antt =====
-- How often each connection of pkg/core/server.go is held by an agent, and how the calls change that.
use mandau.Base.{
  ℕ, ◌+◌, ◌-◌, ◌*◌, ◌≤◌, ◌≡◌, ◌≢◌, refl, sym, ap, ◌∙◌, inl, inr, String, Bool, true, false, Option,
  none, some, List, [], ◌∷◌, ◌++◌, get, put, ltb, eqb, if◌then◌else◌, ◌==◌, Bool-cases, arith,
  eq_iff, Map,
}
use mandau.Core.{
  offline, AgentConnection, second, is_offline, monitor_each, checked_status, dropped_client,
  stale_client, client_of,
}

-- How often a connection is in a list.
abbrev pub times : ℕ → List ℕ → ℕ
times i [] = 0
times i (j ∷ js) = (if eqb j i then 1 else 0) + times i js

times-append : (i : ℕ) (xs ys : List ℕ) → times i (xs ++ ys) ≡ times i xs + times i ys
times-append i [] ys = omega arith
times-append i (x ∷ xs) ys = omega (arith, times-append i xs ys)

-- How many agents hold the connection.
abbrev pub held : ℕ → Map AgentConnection → ℕ
held i [] = 0
held i ((k, a) ∷ m) = times i (client_of a.client) + held i m

abbrev pub held_by : Option AgentConnection → List ℕ
held_by none = []
held_by (some a) = client_of a.client

-- Setting an entry gives up what it held before.
pub held-put :
    (i : ℕ) (m : Map AgentConnection) (k : String) (b : AgentConnection)
    → held i (put m k b) + times i (held_by (get m k)) ≡ held i m + times i (client_of b.client)
unfolding get put
held-put i [] k b = omega arith
held-put i ((j, a) ∷ m) k b = elim (Bool-cases (j == k)) [
  | inl e ↦ rw e (omega arith)
  | inr e ↦ rw e (omega (arith, held-put i m k b))
]

times-dropped :
    (i : ℕ) (a : AgentConnection) (t : Bool)
    → times i (client_of (if t then record a { client = none } else a).client)
        + times i (if t then client_of a.client else [])
      ≡ times i (client_of a.client)
times-dropped i a true = omega arith
times-dropped i a false = omega arith

times-checked :
    (i now : ℕ) (a : AgentConnection) (t : Bool)
    → times i (client_of (dropped_client (if t then record a { status = offline } else a)).client)
        + times i (stale_client (if t then record a { status = offline } else a))
      ≡ times i (client_of a.client)
times-checked i now a true = times-dropped i (record a { status = offline }) true
times-checked i now a false = times-dropped i a (is_offline a.status)

-- A round of the monitor only moves connections from the agents to the closed ones.
pub held-monitor_each :
    (i now : ℕ) (m : Map AgentConnection) (closed : List ℕ)
    → held i (monitor_each now m closed).0 + times i (monitor_each now m closed).1
      ≡ held i m + times i closed
unfolding monitor_each
held-monitor_each i now [] closed = refl
held-monitor_each i now ((k, a) ∷ m) closed = omega (
  arith,
  times-checked i now a (ltb (90 * second) (now - a.last_seen)),
  held-monitor_each i now m (stale_client (checked_status now a) ++ closed),
  times-append i (stale_client (checked_status now a)) closed,
)

pub held_of_get :
    (i : ℕ) (m : Map AgentConnection) (k : String) → times i (held_by (get m k)) ≤ held i m
unfolding get
held_of_get i [] k = omega arith
held_of_get i ((j, a) ∷ m) k = elim (Bool-cases (j == k)) [
  | inl e ↦ rw e (omega arith)
  | inr e ↦ rw e (omega (arith, held_of_get i m k))
]

pub held_of_two :
    (i : ℕ) (m : Map AgentConnection) (k l : String)
    → k ≢ l
    → times i (held_by (get m k)) + times i (held_by (get m l)) ≤ held i m
unfolding get
held_of_two i [] k l n = omega arith
held_of_two i ((j, a) ∷ m) k l n = elim (Bool-cases (j == k)) [
  | inl e ↦ elim (Bool-cases (j == l)) [
    | inl f ↦ absurd (n (sym ((eq_iff j k).0 e) ∙ (eq_iff j l).0 f))
    | inr f ↦ rw (e, f) (omega (arith, held_of_get i m l))
  ]
  | inr e ↦ elim (Bool-cases (j == l)) [
    | inl f ↦ rw (e, f) (omega (arith, held_of_get i m k))
    | inr f ↦ rw (e, f) (omega (arith, held_of_two i m k l n))
  ]
]

pub times-some :
    (i : ℕ) (m : Map AgentConnection) (k : String) (a : AgentConnection)
    → get m k ≡ some a
    → a.client ≡ some i
    → times i (held_by (get m k)) ≡ 1
times-some i m k a e f = ap (λ o. times i (held_by o)) e ∙ ap (λ o. times i (client_of o)) f ∙ one
  where
    one : (if eqb i i then 1 else 0) + 0 ≡ 1
    one = ground arith
