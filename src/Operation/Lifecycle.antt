-- ===== src/Operation/Lifecycle.antt =====
-- The states that an operation goes through.
use mandau.Base.{
  ℕ, ◌≡◌, ◌⊎◌, inl, inr, String, true, false, none, some, arith, eq_refl, get, put, get-put,
  Bool-cases, Option-cases, ok, err,
}
use mandau.Base.Int.{pos}
use mandau.Operation.{completed, cancelled, Operation, Event, Manager, emit_event_locked, not_found}
use mandau.Operation.Updates.{
  update_and_emit, set_completed, cancel, is_finished, cancel_event, completed_event,
}
use mandau.Operation.Invariant.{Inv, update_and_emit-Inv}

pub emit-operations :
    (m m' : Manager) (e : Event) → emit_event_locked m e ≡ some m' → m'.operations ≡ m.operations
unfolding emit_event_locked
emit-operations m m' e h = ground arith

pub update-operations :
    (m m' : Manager) (k : String) (op : Operation) (e : Event)
    → update_and_emit m k op e ≡ some m'
    → m'.operations ≡ put m.operations k op
unfolding update_and_emit
update-operations m m' k op e h = emit-operations _ m' e h

abbrev pub cancelled_operation : Operation → ℕ → Operation
cancelled_operation op now = record op {
  has_context = false;
  state = cancelled;
  completed_at = some now;
}

-- `Cancel` on each of its branches. A missing operation and one that has completed or failed are
-- errors and change nothing; any other, a cancelled one too, is cancelled, and no other operation
-- changes.
cancel_lem :
    (m : Manager) (k : String) (now : ℕ)
    → Inv m
    → ((get m.operations k ≡ none) × (cancel m k now ≡ some (m, not_found k)))
      ⊎ ((op : Operation) × (get m.operations k ≡ some op)
          × (is_finished op.state ≡ true)
          × (cancel m k now ≡ some (m, err "operation already finished")))
      ⊎ ((op : Operation) × (m' : Manager) × (get m.operations k ≡ some op)
          × (is_finished op.state ≡ false)
          × (cancel m k now ≡ some (m', ok tt))
          × (m'.operations ≡ put m.operations k (cancelled_operation op now)))
unfolding cancel
cancel_lem m k now v = elim (Option-cases (get m.operations k)) [
  | inl e ↦ inl (e, rw (e, cancel))
  | inr (op, e) ↦ elim (Bool-cases (is_finished op.state)) [
    | inl f ↦ inr (inl (op, e, f, rw (e, cancel) (rw f)))
    | inr f ↦
        let (m', p, w) = update_and_emit-Inv m k (cancelled_operation op now) (cancel_event k) v in
        inr (inr (op, m', e, f, rw (e, cancel) (rw f (rw p)), update-operations m m' k _ _ p))
  ]
]

update-get :
    (m m' : Manager) (k : String) (op : Operation) (e : Event)
    → update_and_emit m k op e ≡ some m'
    → get m'.operations k ≡ some op
update-get m m' k op e p = rw (update-operations m m' k op e p) (simp (get-put, eq_refl))

abbrev completed_operation : Operation → ℕ → Operation
completed_operation op now = record op {
  state = completed;
  progress = pos 100;
  completed_at = some now;
}

-- `Cancel` on an operation that has not completed or failed, and `SetCompleted` after it.
pub set_completed-cancel :
    (m : Manager) (k : String) (op : Operation) (t u : ℕ)
    → Inv m
    → get m.operations k ≡ some op
    → is_finished op.state ≡ false
    → (m1 : Manager) × (m2 : Manager) × (cancel m k t ≡ some (m1, ok tt))
      × (get m1.operations k ≡ some (cancelled_operation op t))
      × (set_completed m1 k u ≡ some m2)
      × (get m2.operations k ≡ some (completed_operation (cancelled_operation op t) u))
unfolding cancel set_completed
set_completed-cancel m k op t u v e f =
    let (m1, p, w) = update_and_emit-Inv m k (cancelled_operation op t) (cancel_event k) v in
    let (m2, q, z) =
      update_and_emit-Inv m1 k (completed_operation (cancelled_operation op t) u)
        (completed_event k u) w in
    (
      m1,
      m2,
      rw (e, cancel) (rw f (rw p)),
      update-get m m1 k _ _ p,
      rw (update-get m m1 k _ _ p, set_completed) q,
      update-get m1 m2 k _ _ q,
    )
