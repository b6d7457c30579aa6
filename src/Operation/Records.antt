-- ===== src/Operation/Records.antt =====
-- What every operation that the manager holds looks like, after any history.
use mandau.Base.{
  ◌⊎◌, ℕ, ◌≡◌, ◌≢◌, refl, sym, ap, subst, ◌∙◌, inl, inr, String, Bool, true, false, Option, none,
  some, List, [], ◌∷◌, arith, Map, get, Each, Each-put, All, Bool-cases, Option-cases, ok,
}
use mandau.Operation.{
  OperationState, pending, running, completed, failed, cancelled, Operation, Event, Manager,
  new_manager, create_operation,
}
use mandau.Operation.Updates.{
  update_and_emit, set_state, set_progress, emit_event, set_error, set_completed, cancel,
  is_finished, with_result, cancel_event,
}
use mandau.Operation.Listeners.{subscribe, unsubscribe, receive}
use mandau.Operation.Calls.{
  Call, creates, sets_state, sets_progress, emits, sets_error, sets_completed, cancels, subscribes,
  unsubscribes, receives, step, run, manager_of,
}
use mandau.Operation.Lifecycle.{emit-operations, update-operations, cancelled_operation}

abbrev pub has_ended : OperationState → Bool
has_ended pending = false
has_ended running = false
has_ended _ = true

-- An operation under its own key; one that has ended has a time, and one that has failed an error.
record IsRecorded (k : String) (op : Operation) : Type 0 where
  pub keyed : op.id ≡ k
  pub stamped : has_ended op.state ≡ true → op.completed_at ≢ none
  pub explained : op.state ≡ failed → op.error ≢ none

abbrev AllRecorded : Map Operation → Type 0
AllRecorded = Each IsRecorded

-- The callers pass `SetState` nothing but `OperationStateRunning`.
abbrev Regular : Call → Type 0
Regular (sets_state k s now) = s ≡ running
Regular (sets_error k e now) = e ≢ none
Regular _ = Unit {0}

on_operation-AllRecorded :
    (m m' : Manager) (k : String) (o : Option Operation) (f : Operation → Option Manager)
    → get m.operations k ≡ o
    → AllRecorded m.operations
    → ((op : Operation) → IsRecorded k op → f op ≡ some m' → AllRecorded m'.operations)
    → (elim o [ none ↦ some m | some op ↦ f op ]) ≡ some m'
    → AllRecorded m'.operations
on_operation-AllRecorded m m' k none f g v s h =
    let same : m ≡ m' = cc h in subst (λ (n : Manager). AllRecorded n.operations) same v
on_operation-AllRecorded m m' k (some op) f g v s h = s op (v k op g) h

update-AllRecorded :
    (m m' : Manager) (k : String) (op : Operation) (e : Event)
    → AllRecorded m.operations
    → IsRecorded k op
    → update_and_emit m k op e ≡ some m'
    → AllRecorded m'.operations
update-AllRecorded m m' k op e v r h =
    subst AllRecorded (sym (update-operations m m' k op e h))
      (Each-put IsRecorded m.operations k op r v)

same-AllRecorded :
    (m m' : Manager)
    → m'.operations ≡ m.operations
    → AllRecorded m.operations
    → AllRecorded m'.operations
same-AllRecorded m m' e v = subst AllRecorded (sym e) v

some_of_with_result {ℓ} :
    {A : Type ℓ} (a : A) (r : Option Manager) (m' : Manager)
    → manager_of (with_result a r) ≡ some m'
    → r ≡ some m'
some_of_with_result a (some m) m' h = h
some_of_with_result a none m' h = cc

cancel-AllRecorded :
    (m m' : Manager) (k : String) (now : ℕ)
    → AllRecorded m.operations
    → manager_of (cancel m k now) ≡ some m'
    → AllRecorded m'.operations
unfolding cancel
cancel-AllRecorded m m' k now v h = elim (Option-cases (get m.operations k)) [
  | inl e ↦ same-AllRecorded m m' (ground arith) v
  | inr (op, e) ↦ elim (Bool-cases (is_finished op.state)) [
    | inl f ↦ same-AllRecorded m m' (ground arith) v
    | inr f ↦
        update-AllRecorded m m' k (cancelled_operation op now) (cancel_event k) v
          (cancelled op (v k op e))
          (some_of_with_result {0} (ok (tt {0})) _ m' (rw f at (rw (e, cancel) at h)))
  ]
]
  where
    cancelled : (op : Operation) → IsRecorded k op → IsRecorded k (cancelled_operation op now)
    cancelled op r = record { keyed = r.keyed; stamped = λ s n. cc; explained = λ s. cc }

subscribe-operations :
    (m m' : Manager) (k : String) (now : ℕ)
    → manager_of (subscribe m k now) ≡ some m'
    → m'.operations ≡ m.operations
unfolding subscribe
subscribe-operations m m' k now h = ground arith

unsubscribe-operations :
    (m m' : Manager) (k : String) (ch : ℕ)
    → unsubscribe m k ch ≡ some m'
    → m'.operations ≡ m.operations
unfolding unsubscribe
unsubscribe-operations m m' k ch h = ground arith

receive-operations : (m : Manager) (ch : ℕ) → (receive m ch).0.operations ≡ m.operations
unfolding receive
receive-operations m ch = ground arith

step-AllRecorded :
    (m m' : Manager) (c : Call)
    → Regular c
    → AllRecorded m.operations
    → step m c ≡ some m'
    → AllRecorded m'.operations
unfolding step set_state set_progress set_error set_completed emit_event create_operation
step-AllRecorded m m' (creates t metadata uuid now) o v h =
    let same : (create_operation m t metadata uuid now).0 ≡ m' = cc h in
    subst (λ (n : Manager). AllRecorded n.operations) same
      (Each-put IsRecorded m.operations uuid _
        (record { keyed = refl; stamped = λ s n. cc; explained = λ s. cc }) v)
step-AllRecorded m m' (sets_state k s now) o v h =
    on_operation-AllRecorded m m' k (get m.operations k) _ refl v
      (λ op r.
        update-AllRecorded m m' k _ _ v (record {
          keyed = r.keyed;
          stamped = λ e n. ground arith;
          explained = λ e. ground arith;
        }))
      h
step-AllRecorded m m' (sets_progress k p now) o v h =
    on_operation-AllRecorded m m' k (get m.operations k) _ refl v
      (λ op r.
        update-AllRecorded m m' k _ _ v
          (record { keyed = r.keyed; stamped = r.stamped; explained = r.explained }))
      h
step-AllRecorded m m' (emits k message now) o v h =
    on_operation-AllRecorded m m' k (get m.operations k) _ refl v
      (λ op r e. same-AllRecorded m m' (emit-operations m m' _ e) v) h
step-AllRecorded m m' (sets_error k e now) o v h =
    on_operation-AllRecorded m m' k (get m.operations k) _ refl v
      (λ op r.
        update-AllRecorded m m' k _ _ v
          (record { keyed = r.keyed; stamped = λ e n. cc; explained = λ e n. o n }))
      h
step-AllRecorded m m' (sets_completed k now) o v h =
    on_operation-AllRecorded m m' k (get m.operations k) _ refl v
      (λ op r.
        update-AllRecorded m m' k _ _ v
          (record { keyed = r.keyed; stamped = λ e n. cc; explained = λ e. cc }))
      h
step-AllRecorded m m' (cancels k now) o v h = cancel-AllRecorded m m' k now v h
step-AllRecorded m m' (subscribes k now) o v h =
    same-AllRecorded m m' (subscribe-operations m m' k now h) v
step-AllRecorded m m' (unsubscribes k ch) o v h =
    same-AllRecorded m m' (unsubscribe-operations m m' k ch h) v
step-AllRecorded m m' (receives ch) o v h =
    let same : (receive m ch).0 ≡ m' = cc h in
    same-AllRecorded m m' (ap (λ (n : Manager). n.operations) (sym same) ∙ receive-operations m ch)
      v

run-AllRecorded :
    (m m' : Manager) (cs : List Call)
    → All Regular cs
    → AllRecorded m.operations
    → run m cs ≡ some m'
    → AllRecorded m'.operations
unfolding run
run-AllRecorded m m' [] o v h =
    let same : m ≡ m' = cc h in subst (λ (n : Manager). AllRecorded n.operations) same v
run-AllRecorded m m' (c ∷ cs) o v h = elim (Option-cases (step m c)) [
  | inl e ↦ absurd (ground arith)
  | inr (n, e) ↦ run-AllRecorded n m' cs o.1 (step-AllRecorded m n c o.0 v e) (rw (e, run) at h)
]

run-new_manager-AllRecorded :
    (cs : List Call) (m : Manager)
    → All Regular cs
    → run new_manager cs ≡ some m
    → AllRecorded m.operations
unfolding new_manager get
run-new_manager-AllRecorded cs m o h = run-AllRecorded new_manager m cs o (λ k op e. cc) h

failed-cases : (s : OperationState) → (s ≡ failed) ⊎ (s ≢ failed)
failed-cases pending = inr (λ e. cc)
failed-cases running = inr (λ e. cc)
failed-cases completed = inr (λ e. cc)
failed-cases failed = inl refl
failed-cases cancelled = inr (λ e. cc)

-- After any history in which `SetState` is only called with the running state and `SetError` only with
-- an error that is not nil, every operation is filed under its own ID, every one that has ended has a completion time, and every one that has
-- failed has an error.
pub run-recorded :
    (cs : List Call) (m : Manager) (k : String) (op : Operation)
    → All Regular cs
    → run new_manager cs ≡ some m
    → get m.operations k ≡ some op
    → (op.id ≡ k)
      × ((has_ended op.state ≡ false) ⊎ (op.completed_at ≢ none))
      × ((op.state ≢ failed) ⊎ (op.error ≢ none))
run-recorded cs m k op o h e = (r.keyed, stamped, explained)
  where
    r : IsRecorded k op
    r = run-new_manager-AllRecorded cs m o h k op e

    stamped : (has_ended op.state ≡ false) ⊎ (op.completed_at ≢ none)
    stamped = elim (Bool-cases (has_ended op.state)) [ inl t ↦ inr (r.stamped t) | inr f ↦ inl f ]

    explained : (op.state ≢ failed) ⊎ (op.error ≢ none)
    explained = elim (failed-cases op.state) [ inl t ↦ inr (r.explained t) | inr f ↦ inl f ]
