-- ===== src/Stack/Reports.antt =====
-- How the executions of pkg/agent/stack/manager.go end, and what a subscriber sees of it.
use mandau.Base.{
  ◌⊎◌, refl, false, ℕ, ◌≤◌, ◌≡◌, refl, sym, ap, ◌∙◌, ◌⊎◌, String, Bool, true, false, some, List, [],
  ◌∷◌, ◌++◌, map, arith, length, length-append, get, if◌then◌else◌, Result, ok, err, ◌>>=◌,
}
use mandau.Operation.{
  OperationState, pending, running, completed, failed, Operation, Event, Manager,
}
use mandau.Operation.Calls.{run}
use mandau.Operation.Listeners.{subscribe}
use mandau.Operation.Invariant.{Inv}
use mandau.Operation.Delivery.{
  Report, now_running, says, fails, completes, call_of, state_after, events_of, step-Reported,
}
use mandau.Operation.Subscription.{step-Inv, subscribe-reports}
use mandau.Stack.{Service, Project, parse_compose}
use mandau.Stack.Execution.{
  Machine, ApplyStackRequest, exec_command, pull_images, up_command, down_command, ended,
  create_services, pulled, images_first, parsed, execute_apply, stopped, execute_remove,
}

-- The state that the reports leave.
abbrev pub final_state : OperationState → List Report → OperationState
final_state s [] = s
final_state s (r ∷ rs) = final_state (state_after s r) rs

abbrev Finished : OperationState → Type 0
Finished s = (s ≡ completed) ⊎ (s ≡ failed)

abbrev pub outcome {ℓ} : {A : Type ℓ} → Result A → OperationState
outcome (ok a) = completed
outcome (err e) = failed

-- Whether an apply works: the project is read, its images are pulled if that is asked for, and the
-- command is run.
abbrev pub apply_result : Machine → ApplyStackRequest → String → Result (Unit {0})
apply_result machine req dir =
    parse_compose machine.host req.stack_name req.compose_content dir >>= λ project.
    (if req.pull_images then pull_images machine project.services else ok tt) >>= λ _.
    exec_command machine (up_command machine req)

abbrev remove_result : Machine → String → String → Bool → Result (Unit {0})
remove_result machine name dir remove_volumes =
    exec_command machine (down_command machine name remove_volumes) >>= λ _. machine.remove_all dir

abbrev Ends : OperationState → ℕ → OperationState → List Report → Type 0
Ends s n final rs = (final_state s rs ≡ final) × (length rs ≤ n)

ended_lem :
    (s : OperationState) (p g : String) (t : ℕ) (r : Result (Unit {0}))
    → Ends s 2 (outcome r) (ended p g t r)
ended_lem s p g t (err e) = (refl, ground arith)
ended_lem s p g t (ok u) = (refl, ground arith)

create_services_lem :
    (s : OperationState) (machine : Machine) (req : ApplyStackRequest) (t : ℕ)
    → Ends s 3
        (outcome (exec_command machine (up_command machine req)))
        (create_services machine req t)
create_services_lem s machine req t =
    let (e, l) =
      ended_lem s "compose up: " "Stack applied successfully" t
        (exec_command machine (up_command machine req)) in
    (e, omega (arith, l))

pulled_lem :
    (s : OperationState) (machine : Machine) (req : ApplyStackRequest) (t : ℕ)
    (r : Result (Unit {0}))
    → Ends s 3
        (outcome (r >>= λ _. exec_command machine (up_command machine req)))
        (pulled machine req t r)
pulled_lem s machine req t (err e) = (refl, ground arith)
pulled_lem s machine req t (ok u) = create_services_lem s machine req t

images_first_lem :
    (s : OperationState) (machine : Machine) (req : ApplyStackRequest) (t : ℕ)
    (services : List Service) (pull : Bool)
    → Ends s 4
        (outcome (
          (if pull then pull_images machine services else ok tt) >>= λ _.
          exec_command machine (up_command machine req)))
        (images_first machine req t services pull)
images_first_lem s machine req t services true =
    let (e, l) = pulled_lem s machine req t (pull_images machine services) in (e, omega (arith, l))
images_first_lem s machine req t services false =
    let (e, l) = create_services_lem s machine req t in (e, omega (arith, l))

parsed_lem :
    (s : OperationState) (machine : Machine) (req : ApplyStackRequest) (t : ℕ) (r : Result Project)
    → Ends s 4
        (outcome (
          r >>= λ project.
          (if req.pull_images then pull_images machine project.services else ok tt) >>= λ _.
          exec_command machine (up_command machine req)))
        (parsed machine req t r)
parsed_lem s machine req t (err e) = (refl, ground arith)
parsed_lem s machine req t (ok project) =
    images_first_lem s machine req t project.services req.pull_images

-- An apply reports at most six times, and it leaves its operation completed if the compose file
-- parses, the images that it is asked to pull are pulled and the command works, and failed if not.
pub execute_apply_lem :
    (s : OperationState) (machine : Machine) (req : ApplyStackRequest) (dir : String) (t : ℕ)
    → (final_state s (execute_apply machine req dir t) ≡ outcome (apply_result machine req dir))
      × (length (execute_apply machine req dir t) ≤ 6)
unfolding execute_apply
execute_apply_lem s machine req dir t =
    let (e, l) =
      parsed_lem running machine req t
        (parse_compose machine.host req.stack_name req.compose_content dir) in
    (e, omega (arith, l))

stopped_lem :
    (s : OperationState) (machine : Machine) (dir : String) (t : ℕ) (r : Result (Unit {0}))
    → Ends s 3 (outcome (r >>= λ _. machine.remove_all dir)) (stopped machine dir t r)
stopped_lem s machine dir t (err e) = (refl, ground arith)
stopped_lem s machine dir t (ok u) =
    let (e, l) =
      ended_lem s "remove directory: " "Stack removed successfully" t (machine.remove_all dir) in
    (e, omega (arith, l))

-- A removal reports at most five times, and it leaves its operation completed if the command works
-- and the directory is removed, and failed if not.
execute_remove_lem :
    (s : OperationState) (machine : Machine) (name dir : String) (volumes : Bool) (t : ℕ)
    → (final_state s (execute_remove machine name dir volumes t)
        ≡ outcome (remove_result machine name dir volumes))
      × (length (execute_remove machine name dir volumes t) ≤ 5)
unfolding execute_remove
execute_remove_lem s machine name dir volumes t =
    let (e, l) =
      stopped_lem running machine dir t
        (exec_command machine (down_command machine name volumes)) in
    (e, omega (arith, l))

-- The operation after some reports.
pub run-Reported :
    (m : Manager) (k : String) (op : Operation) (rs : List Report)
    → Inv m
    → get m.operations k ≡ some op
    → (m' : Manager) × (op' : Operation) × (run m (map (call_of k) rs) ≡ some m')
      × Inv m'
      × (get m'.operations k ≡ some op')
      × (op'.state ≡ final_state op.state rs)
unfolding run
run-Reported m k op [] v h = (m, op, refl, v, h, refl)
run-Reported m k op (r ∷ rs) v h =
    let (m1, p, d) = step-Reported m k op r v h in
    let (m2, op2, q, w, g, e) = run-Reported m1 k d.op' rs (step-Inv m m1 _ p v) d.found in
    (m2, op2, rw (p, run) q, w, g, e ∙ ap (λ st. final_state st rs) d.state)

abbrev pub last_state : OperationState → List Event → OperationState
last_state s [] = s
last_state s (e ∷ es) = last_state e.state es

last-events_of :
    (k : String) (s : OperationState) (rs : List Report)
    → last_state s (events_of k s rs) ≡ final_state s rs
last-events_of k s [] = refl
last-events_of k s (now_running t ∷ rs) = last-events_of k running rs
last-events_of k s (says x t ∷ rs) = last-events_of k s rs
last-events_of k s (fails e t ∷ rs) = last-events_of k failed rs
last-events_of k s (completes t ∷ rs) = last-events_of k completed rs

pub final-append :
    (s : OperationState) (rs qs : List Report)
    → final_state s (rs ++ qs) ≡ final_state (final_state s rs) qs
final-append s [] qs = refl
final-append s (r ∷ rs) qs = final-append (state_after s r) rs qs

-- Whenever during some reports of an operation a subscriber subscribes, if at most nine of them
-- follow: the subscription and the rest of the reports return, and the last event in the subscriber's
-- channel has the state that the operation ends in.
subscribe-last_state :
    (m : Manager) (k : String) (op : Operation) (pre post : List Report) (now : ℕ)
    → Inv m
    → get m.operations k ≡ some op
    → length post ≤ 9
    → (m1 : Manager) × (m2 : Manager) × (m3 : Manager) × (run m (map (call_of k) pre) ≡ some m1)
      × (subscribe m1 k now ≡ some (m2, m1.next))
      × (run m2 (map (call_of k) post) ≡ some m3)
      × (last_state pending (m3.channels m1.next).buffer ≡ final_state op.state (pre ++ post))
subscribe-last_state m k op pre post now v h l =
    let (m1, op1, p, w, g, e) = run-Reported m k op pre v h in
    let (m2, m3, q, r, b) = subscribe-reports m1 k op1 now post w g l in
    (
      m1,
      m2,
      m3,
      p,
      q,
      r,
      ap (last_state pending) b
          ∙ last-events_of k op1.state post
          ∙ ap (λ st. final_state st post) e
          ∙ sym (final-append op.state pre post),
    )

-- The channel of a subscriber to an apply that receives nothing before the apply has ended tells how it
-- ends, whenever during it the subscriber subscribes: the last event in the channel has state completed
-- if the apply works, and failed if not.
pub apply-last_state :
    (m : Manager) (k : String) (op : Operation) (machine : Machine) (req : ApplyStackRequest)
    (dir : String) (t : ℕ) (pre post : List Report) (now : ℕ)
    → Inv m
    → get m.operations k ≡ some op
    → pre ++ post ≡ execute_apply machine req dir t
    → (m1 : Manager) × (m2 : Manager) × (m3 : Manager) × (run m (map (call_of k) pre) ≡ some m1)
      × (subscribe m1 k now ≡ some (m2, m1.next))
      × (run m2 (map (call_of k) post) ≡ some m3)
      × (last_state pending (m3.channels m1.next).buffer ≡ outcome (apply_result machine req dir))
apply-last_state m k op machine req dir t pre post now v h split =
    let (e, l) = execute_apply_lem op.state machine req dir t in
    let (m1, m2, m3, p, q, r, b) =
      subscribe-last_state m k op pre post now v h
        (omega (arith, l, ap length split, length-append pre post)) in
    (m1, m2, m3, p, q, r, b ∙ ap (final_state op.state) split ∙ e)
