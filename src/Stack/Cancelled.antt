-- ===== src/Stack/Cancelled.antt =====
-- What becomes of a cancelled execution of pkg/agent/stack/manager.go.
use mandau.Base.{
  ℕ, ◌≡◌, ◌⊎◌, inl, inr, refl, sym, ap, ◌∙◌, String, true, false, some, List, [], ◌∷◌, ◌++◌, map,
  get, ok, Result, err,
}
use mandau.Operation.{OperationState, cancelled, Operation, Manager}
use mandau.Operation.Calls.{run, step, cancels}
use mandau.Operation.Updates.{cancel, is_finished}
use mandau.Operation.Invariant.{Inv}
use mandau.Operation.Delivery.{Report, now_running, says, fails, completes, call_of}
use mandau.Operation.Subscription.{step-Inv}
use mandau.Operation.Lifecycle.{set_completed-cancel, cancelled_operation}
use mandau.Stack.Execution.{Machine, ApplyStackRequest, execute_apply}
use mandau.Stack.Reports.{
  final_state, outcome, apply_result, execute_apply_lem, run-Reported, final-append,
}

-- Reports leave the state as it was, or make it one that does not depend on it.
final-cases :
    (rs : List Report)
    → ((s : OperationState) → final_state s rs ≡ s)
      ⊎ ((s t : OperationState) → final_state s rs ≡ final_state t rs)
final-cases [] = inl (λ s. refl)
final-cases (now_running t ∷ rs) = inr (λ s u. refl)
final-cases (says x t ∷ rs) = final-cases rs
final-cases (fails e t ∷ rs) = inr (λ s u. refl)
final-cases (completes t ∷ rs) = inr (λ s u. refl)

outcome-finished {ℓ} : {A : Type ℓ} (r : Result A) → is_finished (outcome r) ≡ true
outcome-finished (ok a) = refl
outcome-finished (err e) = refl

-- The state in which the rest of some reports ends does not depend on a state that is not finished.
final-rest :
    (s u : OperationState) (pre post : List Report) (end : OperationState)
    → is_finished (final_state s pre) ≡ false
    → final_state s (pre ++ post) ≡ end
    → is_finished end ≡ true
    → final_state u post ≡ end
final-rest s u pre post end n e f =
    let whole : final_state (final_state s pre) post ≡ end = sym (final-append s pre post) ∙ e in
    elim (final-cases post) [
      | inl same ↦ cc (sym n ∙ ap is_finished (sym (same (final_state s pre)) ∙ whole) ∙ f)
      | inr any ↦ any u (final_state s pre) ∙ whole
    ]

-- The manager and the operation after it is cancelled.
cancel-found :
    (m : Manager) (k : String) (op : Operation) (now : ℕ)
    → Inv m
    → get m.operations k ≡ some op
    → is_finished op.state ≡ false
    → (m' : Manager) × (cancel m k now ≡ some (m', ok tt))
      × Inv m'
      × (get m'.operations k ≡ some (cancelled_operation op now))
unfolding step
cancel-found m k op now v g f =
    let (m1, m2, p, found, q, i) = set_completed-cancel m k op now now v g f in
    (m1, p, step-Inv m m1 (cancels k now) (rw p refl) v, found)

-- A cancelled apply does not stay cancelled. Whenever between the calls of an apply, which do not depend
-- on the manager, `Cancel` is called and the operation has not completed or failed, then `Cancel`
-- succeeds and makes the operation a cancelled one, and after the rest of the calls it is completed if
-- the apply works, and failed if not, as if there had been no `Cancel`.
pub cancel-apply :
    (m : Manager) (k : String) (op : Operation) (machine : Machine) (req : ApplyStackRequest)
    (dir : String) (t now : ℕ) (pre post : List Report)
    → Inv m
    → get m.operations k ≡ some op
    → pre ++ post ≡ execute_apply machine req dir t
    → is_finished (final_state op.state pre) ≡ false
    → (m1 : Manager) × (m2 : Manager) × (m3 : Manager) × (op2 : Operation) × (op3 : Operation)
      × (run m (map (call_of k) pre) ≡ some m1)
      × (cancel m1 k now ≡ some (m2, ok tt))
      × (get m2.operations k ≡ some op2)
      × (op2.state ≡ cancelled)
      × (run m2 (map (call_of k) post) ≡ some m3)
      × (get m3.operations k ≡ some op3)
      × (op3.state ≡ outcome (apply_result machine req dir))
cancel-apply m k op machine req dir t now pre post v g split n =
    let (m1, op1, p, w, h, e) = run-Reported m k op pre v g in
    let (m2, c, x, found) = cancel-found m1 k op1 now w h (ap is_finished e ∙ n) in
    let (m3, op3, q, y, i, f) = run-Reported m2 k (cancelled_operation op1 now) post x found in
    let (end, few) = execute_apply_lem op.state machine req dir t in
    (
      m1,
      m2,
      m3,
      cancelled_operation op1 now,
      op3,
      p,
      c,
      found,
      refl,
      q,
      i,
      f
          ∙ final-rest op.state cancelled pre post (outcome (apply_result machine req dir)) n
              (ap (final_state op.state) split ∙ end)
              (outcome-finished (apply_result machine req dir)),
    )
