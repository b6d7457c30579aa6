-- ===== src/Agent/Following.antt =====
-- How the streams of the agent that follow an operation end.
use mandau.Base.{
  ◌+◌, ℕ, zero, suc, ◌≤◌, ◌≡◌, inl, inr, refl, ap, ◌∙◌, String, true, false, none, some, List, [],
  ◌∷◌, ◌++◌, map, length, get, Result, ok, err, Bool-cases, All, arith,
}
use mandau.Operation.{OperationState, pending, Operation, Event, Manager}
use mandau.Operation.Updates.{is_finished}
use mandau.Operation.Calls.{run}
use mandau.Operation.Listeners.{subscribe}
use mandau.Operation.Invariant.{Inv}
use mandau.Operation.Delivery.{Report, call_of}
use mandau.Stack.Execution.{Machine, ApplyStackRequest, execute_apply}
use mandau.Stack.Reports.{last_state, apply-last_state, outcome, apply_result}
use mandau.Agent.Follow.{Then, nothing_yet, response, follow, Followed, sent_on}

follow-returns :
    (es : List Event) (s : OperationState) (after : Then) (room : ℕ) (failure : String)
    → is_finished s ≡ false
    → is_finished (last_state s es) ≡ true
    → length es ≤ room
    → (follow es after room failure).1 ≡ some (ok tt)
unfolding follow
follow-returns [] s after room failure h k l = cc
follow-returns (e ∷ es) s after zero failure h k l = absurd (omega arith)
follow-returns (e ∷ es) s after (suc room) failure h k l = elim (Bool-cases (is_finished e.state)) [
  | inl f ↦ ap (λ b. (sent_on e (follow es after room failure) b).1) f
  | inr f ↦
      ap (λ b. (sent_on e (follow es after room failure) b).1) f
      ∙ follow-returns es e.state after room failure f k (omega (arith, l))
]

-- While no event says that the operation completed or failed, the stream sends each event and then
-- waits: it goes on waiting after the event of a cancellation.
follow-waits :
    (es : List Event) (room : ℕ) (failure : String)
    → All (λ e. is_finished e.state ≡ false) es
    → length es ≤ room
    → follow es nothing_yet room failure ≡ (map response es, none)
unfolding follow
follow-waits [] zero failure a l = refl
follow-waits [] (suc room) failure a l = refl
follow-waits (e ∷ es) zero failure a l = absurd (omega arith)
follow-waits (e ∷ es) (suc room) failure a l =
    ap (sent_on e (follow es nothing_yet room failure)) a.0
    ∙ ap (λ (p : Followed). sent_on e p false) (follow-waits es room failure a.1 (omega (arith, l)))

outcome-finished : (r : Result (Unit {0})) → is_finished (outcome r) ≡ true
outcome-finished (ok u) = refl
outcome-finished (err e) = refl

-- The stream of an apply ends: whenever during the apply its handler subscribes, what the channel then
-- holds makes the handler return without an error, if the caller takes all of it.
pub apply-follow :
    (m : Manager) (k : String) (op : Operation) (machine : Machine) (req : ApplyStackRequest)
    (dir : String) (t : ℕ) (pre post : List Report) (now : ℕ) (after : Then) (spare : ℕ)
    (failure : String)
    → Inv m
    → get m.operations k ≡ some op
    → pre ++ post ≡ execute_apply machine req dir t
    → (m1 : Manager) × (m2 : Manager) × (m3 : Manager) × (run m (map (call_of k) pre) ≡ some m1)
      × (subscribe m1 k now ≡ some (m2, m1.next))
      × (run m2 (map (call_of k) post) ≡ some m3)
      × ((follow
            (m3.channels m1.next).buffer
            after
            (length (m3.channels m1.next).buffer + spare)
            failure).1
          ≡ some (ok tt))
apply-follow m k op machine req dir t pre post now after spare failure v h split =
    let (m1, m2, m3, p, q, r, b) =
      apply-last_state m k op machine req dir t pre post now v h split in
    (
      m1,
      m2,
      m3,
      p,
      q,
      r,
      follow-returns (m3.channels m1.next).buffer pending after
          (length (m3.channels m1.next).buffer + spare) failure refl
          (ap is_finished b ∙ outcome-finished (apply_result machine req dir)) (omega arith),
    )
