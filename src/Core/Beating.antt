-- ===== src/Core/Beating.antt =====
-- An agent that beats in time is online in the registry of pkg/core/server.go.
use mandau.Base.{
  ℕ, ◌+◌, ◌*◌, ◌^◌, ◌≤◌, ◌≡◌, refl, sym, ap, subst, ◌∙◌, inl, inr, String, false, none, some, List,
  [], ◌∷◌, ◌++◌, get, ltb, if◌then◌else◌, ◌==◌, Option-cases, Bool-cases, arith, eq_refl,
}
use mandau.Core.{online, offline, AgentConnection, Core, new_core, RegisterRequest, agent_id_for}
use mandau.Core.Connection.{Call, register, beat, connect, set_stacks, monitor, run, Timed}
use mandau.Core.Alive.{Life, life_of, life, lives, lived, run-lived}

-- No tick of the monitor comes over 90 seconds after the last call by which the agent shows itself.
unfoldable pub Kept : String → ℕ → List (Call × ℕ) → Type 0
Kept id seen [] = Unit {0}
Kept id seen ((monitor, now) ∷ calls) = (now ≤ seen + 90 * 10 ^ 9) × Kept id seen calls
Kept id seen ((register req, now) ∷ calls) =
    Kept id (if agent_id_for req now == id then now else seen) calls
Kept id seen ((beat i, now) ∷ calls) = Kept id (if i == id then now else seen) calls
Kept id seen ((connect env i, now) ∷ calls) = Kept id seen calls
Kept id seen ((set_stacks i stacks, now) ∷ calls) = Kept id seen calls

lived-Kept :
    (id : String) (calls : List (Call × ℕ)) (seen : ℕ)
    → Kept id seen calls
    → (last : ℕ) × (lived id calls (some (seen, online)) ≡ some (last, online))
unfolding lived lives Kept
lived-Kept id [] seen h = (seen, refl)
lived-Kept id ((monitor, now) ∷ calls) seen h =
    subst
      (λ t.
        (last : ℕ) × (lived id calls (if t then some (seen, offline) else some (seen, online))
          ≡ some (last, online)))
      (sym soon) (lived-Kept id calls seen h.1)
  where
    soon : ltb (seen + 90 * 10 ^ 9) now ≡ false
    soon = ground (arith, h.0)
lived-Kept id ((register req, now) ∷ calls) seen h =
    elim (Bool-cases (agent_id_for req now == id)) [
      | inl e ↦
          rw e (lived-Kept id calls now (subst (λ t. Kept id (if t then now else seen) calls) e h))
      | inr e ↦
          rw e (lived-Kept id calls seen (subst (λ t. Kept id (if t then now else seen) calls) e h))
    ]
lived-Kept id ((beat i, now) ∷ calls) seen h = elim (Bool-cases (i == id)) [
  | inl e ↦
      rw e (lived-Kept id calls now (subst (λ t. Kept id (if t then now else seen) calls) e h))
  | inr e ↦
      rw e (lived-Kept id calls seen (subst (λ t. Kept id (if t then now else seen) calls) e h))
]
lived-Kept id ((connect env i, now) ∷ calls) seen h = lived-Kept id calls seen h
lived-Kept id ((set_stacks i stacks, now) ∷ calls) seen h = lived-Kept id calls seen h

life-online :
    (c : Core) (id : String) (seen : ℕ)
    → life c id ≡ some (seen, online)
    → (a : AgentConnection) × (get c.agents id ≡ some a) × (a.status ≡ online)
life-online c id seen h = elim (Option-cases (get c.agents id)) [
  | inl e ↦ cc (sym h ∙ ap life_of e)
  | inr (a, e) ↦ (a, e, cc (sym (ap life_of e) ∙ h))
]

lived-append :
    (id : String) (front back : List (Call × ℕ)) (l : Life)
    → lived id (front ++ back) l ≡ lived id back (lived id front l)
unfolding lived
lived-append id [] back l = refl
lived-append id ((call, now) ∷ front) back l = lived-append id front back (lives id call now l)

-- An agent that registers and then beats so often that no tick of the monitor comes over 90 seconds
-- after its last sign of life is online, whatever calls came before and whatever the other agents do.
pub run-online :
    (before after : List (Call × ℕ)) (req : RegisterRequest) (at now : ℕ)
    → Timed 0 (before ++ (register req, at) ∷ after) now
    → Kept (agent_id_for req at) at after
    → (a : AgentConnection) × (get
          (run (before ++ (register req, at) ∷ after) new_core).agents
          (agent_id_for req at)
        ≡ some a)
      × (a.status ≡ online)
unfolding lived lives
run-online before after req at now t h =
    let id : String = agent_id_for req at in
    let (last, e) = lived-Kept id after at h in
    life-online (run (before ++ (register req, at) ∷ after) new_core) id last (
      run-lived (before ++ (register req, at) ∷ after) now id t
      ∙ lived-append id before ((register req, at) ∷ after) none
      ∙ ap (λ b. lived id after (if b then some (at, online) else lived id before none))
          (eq_refl (agent_id_for req at))
      ∙ e)
