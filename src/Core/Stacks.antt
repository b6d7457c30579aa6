-- ===== src/Core/Stacks.antt =====
-- Where the core of pkg/core/server.go looks for a stack, and what it passes on of an agent's stream.
use mandau.Base.{
  ℕ, zero, suc, ◌≡◌, ◌≢◌, ◌↔◌, refl, sym, ap, subst, ◌∙◌, inl, inr, String, true, false, Option,
  none, some, List, [], ◌∷◌, map, get, put, get-put, eq_refl, if◌then◌else◌, ◌==◌, Result, ok, err,
  length, take, leb, exists, exists_iff, Any, Option-cases, Bool-cases, arith, eq_iff, Map,
}
use mandau.Core.{Core, AgentConnection, find_in, find_agent_with_stack, update_agent_stacks}
use mandau.Core.Connection.{
  Dialing, awake, address_of, dial_agent, connected, fresh, with_client, get_agent_connection,
}
use mandau.Core.Proxy.{Stack, Remote, relay, list_stacks, listed, noted}

-- The agent has the stack on its list.
abbrev Runs : String → AgentConnection → Type 0
Runs stack_id agent = Any (λ s. s ≡ stack_id) agent.stacks

Runs-iff :
    (stack_id : String) (a : AgentConnection)
    → (exists (λ s. s == stack_id) a.stacks ≡ true) ↔ Runs stack_id a
Runs-iff stack_id a =
    exists_iff (λ s. s == stack_id) (λ s. s ≡ stack_id) a.stacks (λ s. eq_iff s stack_id)

find_in-found :
    (m : Map AgentConnection) (stack_id id : String)
    → find_in m stack_id ≡ ok id
    → Any (λ entry. (entry.0 ≡ id) × Runs stack_id entry.1) m
unfolding find_in
find_in-found [] stack_id id h = cc
find_in-found ((j, a) ∷ m) stack_id id h =
    elim (Bool-cases (exists (λ s. s == stack_id) a.stacks)) [
      | inl e ↦ inl (
        cc (sym (ap (λ t. if t then ok j else find_in m stack_id) e) ∙ h),
        (Runs-iff stack_id a).0 e,
      )
      | inr e ↦ inr (
          find_in-found m stack_id id
            (sym (ap (λ t. if t then ok j else find_in m stack_id) e) ∙ h))
    ]

find_in-finds :
    (m : Map AgentConnection) (stack_id : String)
    → Any (λ entry. Runs stack_id entry.1) m
    → (id : String) × (find_in m stack_id ≡ ok id)
unfolding find_in
find_in-finds [] stack_id h = elim h [ ]
find_in-finds ((j, a) ∷ m) stack_id h = elim (Bool-cases (exists (λ s. s == stack_id) a.stacks)) [
  | inl e ↦ rw e (j, refl)
  | inr e ↦ elim h [
    | inl r ↦ cc (sym e ∙ (Runs-iff stack_id a).1 r)
    | inr r ↦ rw e (find_in-finds m stack_id r)
  ]
]

-- The agent that `findAgentWithStack` gives is registered and has the stack on its list.
find_agent_with_stack-Runs :
    (c : Core) (stack_id id : String)
    → find_agent_with_stack c stack_id ≡ ok id
    → Any (λ entry. (entry.0 ≡ id) × Runs stack_id entry.1) c.agents
unfolding find_agent_with_stack
find_agent_with_stack-Runs c stack_id id h = find_in-found c.agents stack_id id h

-- If a registered agent has the stack on its list then `findAgentWithStack` gives an agent.
find_agent_with_stack-ok :
    (c : Core) (stack_id : String)
    → Any (λ entry. Runs stack_id entry.1) c.agents
    → (id : String) × (find_agent_with_stack c stack_id ≡ ok id)
unfolding find_agent_with_stack
find_agent_with_stack-ok c stack_id h = find_in-finds c.agents stack_id h

Any-get :
    (P : AgentConnection → Type 0) (m : Map AgentConnection) (k : String) (a : AgentConnection)
    → get m k ≡ some a
    → P a
    → Any (λ entry. P entry.1) m
unfolding get
Any-get P [] k a h p = cc
Any-get P ((j, b) ∷ m) k a h p = elim (Bool-cases (j == k)) [
  | inl e ↦ inl (subst P (cc (sym (ap (λ t. if t then some b else get m k) e) ∙ h)) p)
  | inr e ↦ inr (Any-get P m k a (sym (ap (λ t. if t then some b else get m k) e) ∙ h) p)
]

with_client-ok :
    (c : Core) (id : String) (a b : AgentConnection) (o : Option ℕ) (r : Result (Unit {0}))
    → a.client ≡ o
    → get c.agents id ≡ some a
    → (with_client c id a o r).1 ≡ ok b
    → (get (with_client c id a o r).0.agents id ≡ some b) × (b.client ≢ none)
with_client-ok c id a b (some i) r q e h =
    let same : a ≡ b = cc h in (e ∙ ap some same, λ n. cc (sym q ∙ ap (λ x. x.client) same ∙ n))
with_client-ok c id a b none (err m) q e h = cc
with_client-ok c id a b none (ok u) q e h =
    let same : fresh c id a ≡ b = cc h in
    (
      get-put c.agents id id (fresh c id a) ∙ rw (eq_refl id) (ap some same),
      λ n. cc (ap (λ x. x.client) same ∙ n),
    )

-- A successful `getAgentConnection` gives the agent that is registered under the ID afterwards, and
-- that agent has a connection.
get_agent_connection-ok :
    (env : Dialing) (c : Core) (id : String) (now : ℕ) (b : AgentConnection)
    → (get_agent_connection env c id now).1 ≡ ok b
    → (get (get_agent_connection env c id now).0.agents id ≡ some b) × (b.client ≢ none)
unfolding get_agent_connection connected
get_agent_connection-ok env c id now b = elim (Option-cases (get c.agents id)) [
  | inl e ↦ rw (e, get_agent_connection) (λ h. cc)
  | inr (a, e) ↦ elim (Option-cases (awake a now)) [
    | inl f ↦ rw (e, get_agent_connection) (rw f (λ h. cc))
    | inr (a', f) ↦
        rw (e, get_agent_connection)
          (rw (f, connected)
            (with_client-ok (record c { agents = put c.agents id a' }) id a' b a'.client
              (dial_agent env id (address_of id a')) refl
              (get-put c.agents id id a' ∙ rw (eq_refl id) refl)))
  ]
]

Any-map :
    (stacks : List Stack) (stack_id : String)
    → Any (λ s. s.id ≡ stack_id) stacks
    → Any (λ s. s ≡ stack_id) (map (λ s. s.id) stacks)
Any-map [] stack_id h = h
Any-map (s ∷ ss) stack_id (inl h) = inl h
Any-map (s ∷ ss) stack_id (inr h) = inr (Any-map ss stack_id h)

noted-find :
    (remote : Remote) (env : Dialing) (id stack_id : String) (c : Core) (a : AgentConnection)
    (r : Result (List Stack)) (stacks : List Stack)
    → get c.agents id ≡ some a
    → (noted remote env id c r).1 ≡ ok stacks
    → Any (λ s. s.id ≡ stack_id) stacks
    → Any (λ entry. Runs stack_id entry.1) (noted remote env id c r).0.agents
unfolding update_agent_stacks
noted-find remote env id stack_id c a (err m) stacks e h q = cc
noted-find remote env id stack_id c a (ok ss) stacks e h q =
    let same : ss ≡ stacks = cc h in
    rw (e, update_agent_stacks)
      (Any-get (Runs stack_id) (put c.agents id (record a { stacks = map (λ s. s.id) ss })) id
        (record a { stacks = map (λ s. s.id) ss })
        (get-put c.agents id id (record a { stacks = map (λ s. s.id) ss }) ∙ rw (eq_refl id) refl)
        (Any-map ss stack_id (subst (Any (λ s. s.id ≡ stack_id)) (sym same) q)))

listed-find :
    (remote : Remote) (env : Dialing) (id stack_id : String) (x : Core × Result AgentConnection)
    (stacks : List Stack)
    → ((b : AgentConnection) → x.1 ≡ ok b → get x.0.agents id ≡ some b)
    → (listed remote env id x).1 ≡ ok stacks
    → Any (λ s. s.id ≡ stack_id) stacks
    → Any (λ entry. Runs stack_id entry.1) (listed remote env id x).0.agents
listed-find remote env id stack_id (c, err m) stacks known h q = cc
listed-find remote env id stack_id (c, ok a) stacks known h q =
    noted-find remote env id stack_id c a (remote.list_stacks a.client id) stacks (known a refl) h q

-- A stack that `ListStacks` has just told of is found: `findAgentWithStack` gives an agent for it.
pub list_stacks-find :
    (remote : Remote) (env : Dialing) (c : Core) (id stack_id : String) (now : ℕ)
    (stacks : List Stack)
    → (list_stacks remote env c id now).1 ≡ ok stacks
    → Any (λ s. s.id ≡ stack_id) stacks
    → (found : String) × (find_agent_with_stack (list_stacks remote env c id now).0 stack_id
        ≡ ok found)
unfolding list_stacks
list_stacks-find remote env c id stack_id now stacks h q =
    find_agent_with_stack-ok (list_stacks remote env c id now).0 stack_id (
      listed-find remote env id stack_id (get_agent_connection env c id now) stacks
        (λ b e. (get_agent_connection-ok env c id now b e).0) h q)

leb_zero : (n : ℕ) → leb 0 n ≡ true
leb_zero n = ground arith

leb-suc-zero : (n : ℕ) → leb (suc n) 0 ≡ false
leb-suc-zero n = ground arith

leb-suc-suc : (m n : ℕ) → leb (suc m) (suc n) ≡ leb m n
leb-suc-suc m n = ground arith

module _ {E : Type 0} where
  -- The proxy sends the agent's messages in their order until the caller's stream fails, and returns
  -- the error of the stream that ended: also a stream that the agent ended well is an error to it.
  pub relay_lem :
      (es : List E) (ending : String) (room : ℕ) (failure : String)
      → relay es ending room failure
        ≡ (take room es, err (if leb (length es) room then ending else failure))
  unfolding relay
  relay_lem [] ending zero failure = refl
  relay_lem [] ending (suc room) failure =
      ap (λ b. ([], err (if b then ending else failure))) (sym (leb_zero (suc room)))
  relay_lem (e ∷ es) ending zero failure =
      ap (λ b. ([], err (if b then ending else failure))) (sym (leb-suc-zero (length es)))
  relay_lem (e ∷ es) ending (suc room) failure = rw (relay_lem es ending room failure) (
      ap (λ b. (e ∷ take room es, err (if b then ending else failure)))
        (sym (leb-suc-suc (length es) room)))
