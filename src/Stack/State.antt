-- ===== src/Stack/State.antt =====
-- What `determineState` of pkg/agent/stack/manager.go makes of a stack's containers.
use mandau.Base.{
  ◌⊎◌, ℕ, suc, ◌+◌, ◌≤◌, ◌≡◌, ◌≢◌, ◌↔◌, refl, sym, ap, ◌∙◌, false, List, [], ◌∷◌, arith, eq_iff,
  length, eqb, if◌then◌else◌, ◌==◌, Bool-cases, All, inl, inr,
}
use mandau.Stack.{
  ContainerInfo, running, stopped, partial, count_states, state_of_counts, determine_state,
}

-- How many of the containers run.
abbrev ups : List ContainerInfo → ℕ
ups [] = 0
ups (c ∷ cs) = (if c.state == "running" then 1 else 0) + ups cs

count_up :
    (cs : List ContainerInfo) (up down : ℕ)
    → ((count_states cs up down).0 ≡ up + ups cs)
      × ((count_states cs up down).0 + (count_states cs up down).1 ≡ up + down + length cs)
count_up [] up down = (omega arith, omega arith)
count_up (c ∷ cs) up down = elim (Bool-cases (c.state == "running")) [
  | inl e ↦
      rw e
        (omega (arith, (count_up cs (suc up) down).0), omega (arith, (count_up cs (suc up) down).1))
  | inr e ↦
      rw e
        (omega (arith, (count_up cs up (suc down)).0), omega (arith, (count_up cs up (suc down)).1))
]

ups_le : (cs : List ContainerInfo) → ups cs ≤ length cs
ups_le [] = omega arith
ups_le (c ∷ cs) = ground (arith, ups_le cs)

All-up_iff : (cs : List ContainerInfo) → (ups cs ≡ length cs) ↔ All (λ c. c.state ≡ "running") cs
All-up_iff [] = (λ h. tt, λ h. refl)
All-up_iff (c ∷ cs) = ground (arith, All-up_iff cs, ups_le cs, eq_iff c.state "running")

none_up_iff : (cs : List ContainerInfo) → (ups cs ≡ 0) ↔ All (λ c. c.state ≢ "running") cs
none_up_iff [] = (λ h. tt, λ h. refl)
none_up_iff (c ∷ cs) = ground (arith, none_up_iff cs, eq_iff c.state "running")

by_counts :
    (n u : ℕ) (p : ℕ × ℕ)
    → u ≤ n
    → n ≢ 0
    → p.0 ≡ u
    → p.0 + p.1 ≡ n
    → ((state_of_counts n p ≡ running) ↔ (u ≡ n))
      × ((state_of_counts n p ≡ stopped) ↔ (u ≡ 0))
      × ((state_of_counts n p ≡ running)
          ⊎ (state_of_counts n p ≡ stopped)
          ⊎ (state_of_counts n p ≡ partial))
by_counts n u (a, b) l z h k = ground arith

positive : (n : ℕ) → eqb (suc n) 0 ≡ false
positive n = ground arith

-- A stack with no containers is stopped. Of one with containers the state is running if all of them
-- run, stopped if none does, and else partial; it is no other state.
determine_state_lem :
    (cs : List ContainerInfo)
    → ((determine_state cs ≡ running) ↔ ((cs ≢ []) × All (λ c. c.state ≡ "running") cs))
      × ((determine_state cs ≡ stopped) ↔ All (λ c. c.state ≢ "running") cs)
      × ((determine_state cs ≡ running)
          ⊎ (determine_state cs ≡ stopped)
          ⊎ (determine_state cs ≡ partial))
unfolding determine_state
determine_state_lem [] = ((λ h. cc, λ h. absurd (h.0 refl)), (λ h. tt, λ h. refl), inr (inl refl))
determine_state_lem (c ∷ cs) = (
  (
    λ h. (λ e. cc, (All-up_iff (c ∷ cs)).0 (up.0 (sym counted ∙ h))),
    λ h. counted ∙ up.1 ((All-up_iff (c ∷ cs)).1 h.1),
  ),
  (
    λ h. (none_up_iff (c ∷ cs)).0 (down.0 (sym counted ∙ h)),
    λ h. counted ∙ down.1 ((none_up_iff (c ∷ cs)).1 h),
  ),
  rw counted other,
)
  where
    p : ℕ × ℕ
    p = count_states (c ∷ cs) 0 0

    counted : determine_state (c ∷ cs) ≡ state_of_counts (length (c ∷ cs)) p
    counted =
        ap (λ b. if b then stopped else state_of_counts (length (c ∷ cs)) p) (positive (length cs))

    facts :
        ((state_of_counts (length (c ∷ cs)) p ≡ running) ↔ (ups (c ∷ cs) ≡ length (c ∷ cs)))
        × ((state_of_counts (length (c ∷ cs)) p ≡ stopped) ↔ (ups (c ∷ cs) ≡ 0))
        × ((state_of_counts (length (c ∷ cs)) p ≡ running)
            ⊎ (state_of_counts (length (c ∷ cs)) p ≡ stopped)
            ⊎ (state_of_counts (length (c ∷ cs)) p ≡ partial))
    facts =
        by_counts (length (c ∷ cs)) (ups (c ∷ cs)) p (ups_le (c ∷ cs)) (λ e. omega arith)
          (omega (arith, (count_up (c ∷ cs) 0 0).0)) (omega (arith, (count_up (c ∷ cs) 0 0).1))

    up : (state_of_counts (length (c ∷ cs)) p ≡ running) ↔ (ups (c ∷ cs) ≡ length (c ∷ cs))
    up = facts.0

    down : (state_of_counts (length (c ∷ cs)) p ≡ stopped) ↔ (ups (c ∷ cs) ≡ 0)
    down = facts.1

    other :
        (state_of_counts (length (c ∷ cs)) p ≡ running)
        ⊎ (state_of_counts (length (c ∷ cs)) p ≡ stopped)
        ⊎ (state_of_counts (length (c ∷ cs)) p ≡ partial)
    other = facts.2
