-- ===== src/Operation/Delivery.antt =====
-- Which events a listener finds in its channel, and in which order.
use mandau.Base.{
  ℕ, ◌≡◌, refl, ap, ◌∙◌, fun_ext, String, false, none, some, List, [], ◌∷◌, arith, eq_refl, eqb_iff,
  if◌then◌else◌, get, put, get-put, All, All-map_of,
}
use mandau.Operation.{
  OperationState, running, completed, failed, Operation, Event, Channel, Manager, set_channel,
  offer, try_send, send_all, subscribers, emit_event_locked,
}
use mandau.Operation.Updates.{
  update_and_emit, set_state, emit_event, set_error, set_completed, state_event, message_event,
  error_event, completed_event,
}
use mandau.Operation.Listeners.{contains}
use mandau.Operation.Calls.{Call, sets_state, emits, sets_error, sets_completed, step}
use mandau.Operation.Registered.{Distinct}
use mandau.Operation.Invariant.{Inv, Inv-operations}

-- The channels after a send to all of `is`, channel by channel.
abbrev pub deliver : (ℕ → Channel) → List ℕ → Event → ℕ → Channel
deliver h is e i = if contains i is then record (h i) { buffer = offer (h i).buffer e } else h i

pub try_send_open :
    (h : ℕ → Channel) (i : ℕ) (e : Event)
    → (h i).is_closed ≡ false
    → try_send h i e ≡ some (set_channel h i (record (h i) { buffer = offer (h i).buffer e }))
unfolding try_send
try_send_open h i e o =
    ap
      (λ b.
        if b then none else some (set_channel h i (record (h i) { buffer = offer (h i).buffer e })))
      o

-- The loop over open and distinct listeners offers the event to each of them once, and to no other.
send_all-deliver :
    (h : ℕ → Channel) (is : List ℕ) (e : Event)
    → All (λ i. (h i).is_closed ≡ false) is
    → Distinct is
    → send_all h is e ≡ some (deliver h is e)
unfolding send_all
send_all-deliver h [] e a d = refl
send_all-deliver h (i ∷ is) e a d =
    rw (try_send_open h i e a.0, send_all)
      (send_all-deliver h1 is e opened d.1 ∙ ap some (fun_ext λ j. same j))
  where
    h1 : ℕ → Channel
    h1 = set_channel h i (record (h i) { buffer = offer (h i).buffer e })

    opened : All (λ j. (h1 j).is_closed ≡ false) is
    opened = All-map_of _ _ is (λ j c. ground (arith, c, a.0, eqb_iff j i)) a.1

    same : (j : ℕ) → deliver h1 is e j ≡ deliver h (i ∷ is) e j
    same j = ground (arith, d.0, eqb_iff j i)

-- With the invariant, an event reaches every listener of its operation that has room for it, changes
-- no other channel, and changes nothing else.
emit-deliver :
    (m : Manager) (e : Event)
    → Inv m
    → emit_event_locked m e
      ≡ some (record m { channels = deliver m.channels (subscribers m e.operation_id) e })
unfolding emit_event_locked
emit-deliver m e v = rw (
  send_all-deliver m.channels (subscribers m e.operation_id) e
      (All-map_of _ _ _ (λ i l. l.1) (v.live e.operation_id)) (v.distinct e.operation_id),
  emit_event_locked,
)

-- What a goroutine that runs an operation reports about it.
pub data Report : Type 0 where
  now_running : ℕ → Report
  says : String → ℕ → Report
  fails : String → ℕ → Report
  completes : ℕ → Report

abbrev pub call_of : String → Report → Call
call_of k (now_running t) = sets_state k running t
call_of k (says s t) = emits k s t
call_of k (fails e t) = sets_error k (some e) t
call_of k (completes t) = sets_completed k t

-- The state that a report leaves, from the state that it finds.
abbrev pub state_after : OperationState → Report → OperationState
state_after s (now_running t) = running
state_after s (says x t) = s
state_after s (fails e t) = failed
state_after s (completes t) = completed

abbrev pub event_of : String → OperationState → Report → Event
event_of k s (now_running t) = state_event k running t
event_of k s (says x t) = message_event k s x t
event_of k s (fails e t) = error_event k (some e) t
event_of k s (completes t) = completed_event k t

abbrev pub events_of : String → OperationState → List Report → List Event
events_of k s [] = []
events_of k s (r ∷ rs) = event_of k s r ∷ events_of k (state_after s r) rs

-- The manager after a report, but for the operation itself.
pub record Reported (m m' : Manager) (k : String) (s : OperationState) (r : Report) : Type 0 where
  pub op' : Operation
  pub found : get m'.operations k ≡ some op'
  pub state : op'.state ≡ state_after s r
  pub listeners : m'.listeners ≡ m.listeners
  pub next : m'.next ≡ m.next
  pub channels : m'.channels ≡ deliver m.channels (subscribers m k) (event_of k s r)

update-Reported :
    (m : Manager) (k : String) (op op' : Operation) (r : Report)
    → Inv m
    → op'.state ≡ state_after op.state r
    → (event_of k op.state r).operation_id ≡ k
    → (m' : Manager) × (update_and_emit m k op' (event_of k op.state r) ≡ some m')
      × Reported m m' k op.state r
unfolding update_and_emit subscribers
update-Reported m k op op' r v st id = (
  record m {
    operations = put m.operations k op';
    channels = deliver m.channels (subscribers m k) (event_of k op.state r);
  },
  emit-deliver _ _ (Inv-operations m _ v) ∙ rw id,
  record {
    op' = op';
    found = simp (get-put, eq_refl);
    state = st;
    listeners = refl;
    next = refl;
    channels = refl;
  },
)

-- A report reaches an operation that is there: it returns, and this is what it leaves.
pub step-Reported :
    (m : Manager) (k : String) (op : Operation) (r : Report)
    → Inv m
    → get m.operations k ≡ some op
    → (m' : Manager) × (step m (call_of k r) ≡ some m') × Reported m m' k op.state r
unfolding step set_state set_error set_completed emit_event
step-Reported m k op (now_running t) v h =
    rw (h, set_state) (update-Reported m k op _ (now_running t) v refl refl)
step-Reported m k op (says x t) v h = (
  _,
  rw (h, emit_event) (emit-deliver m _ v),
  record { op' = op; found = h; state = refl; listeners = refl; next = refl; channels = refl },
)
step-Reported m k op (fails e t) v h =
    rw (h, set_error) (update-Reported m k op _ (fails e t) v refl refl)
step-Reported m k op (completes t) v h =
    rw (h, set_completed) (update-Reported m k op _ (completes t) v refl refl)
