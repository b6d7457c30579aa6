-- ===== src/Operation/Invariant.antt =====
-- The invariant of the operation manager, and that sending an event keeps it.
use mandau.Base.{
  ℕ, ◌≤◌, ◌≡◌, refl, ◌∙◌, String, true, false, Option, some, List, [], ◌∷◌, arith, eqb_iff, length,
  length-append, Map, put, All, All-map_of,
}
use mandau.Operation.{
  Event, Channel, Manager, set_channel, capacity, offer, try_send, send_all, subscribers,
  emit_event_locked, Operation,
}
use mandau.Operation.Updates.{update_and_emit}
use mandau.Operation.Listeners.{contains}
use mandau.Operation.Registered.{Distinct, Live}

pub record Inv (m : Manager) : Type 0 where
  pub live : (k : String) → All (Live m.channels m.next) (subscribers m k)
  pub distinct : (k : String) → Distinct (subscribers m k)
  pub apart :
      (k j : String) (i : ℕ)
      → contains i (subscribers m k) ≡ true
      → contains i (subscribers m j) ≡ true
      → k ≡ j
  pub bounded : (i : ℕ) → length (m.channels i).buffer ≤ capacity

-- What any number of sends does to the channels.
pub record Sent (h h' : ℕ → Channel) : Type 0 where
  pub same_flags : (i : ℕ) → (h' i).is_closed ≡ (h i).is_closed
  pub bounded :
      ((i : ℕ) → length (h i).buffer ≤ capacity) → (i : ℕ) → length (h' i).buffer ≤ capacity

offer_le : (es : List Event) (e : Event) → length es ≤ capacity → length (offer es e) ≤ capacity
offer_le es e h = ground (arith, length-append es (e ∷ []))

pub try_send_lem :
    (h : ℕ → Channel) (i : ℕ) (e : Event)
    → (h i).is_closed ≡ false
    → (h' : ℕ → Channel) × (try_send h i e ≡ some h') × Sent h h'
unfolding try_send
try_send_lem h i e o = (
  set_channel h i (record (h i) { buffer = offer (h i).buffer e }),
  rw o,
  record {
    same_flags = λ j. ground (arith, eqb_iff j i);
    bounded = λ b j. ground (arith, b j, offer_le (h i).buffer e (b i));
  },
)

send_all_lem :
    (h : ℕ → Channel) (is : List ℕ) (e : Event)
    → All (λ i. (h i).is_closed ≡ false) is
    → (h' : ℕ → Channel) × (send_all h is e ≡ some h') × Sent h h'
unfolding send_all
send_all_lem h [] e a = (h, refl, record { same_flags = λ i. refl; bounded = λ b. b })
send_all_lem h (i ∷ is) e a =
    let (h', p, s) = try_send_lem h i e a.0 in
    let (h'', p', s') = send_all_lem h' is e (All-map_of _ _ is (λ j c. s.same_flags j ∙ c) a.1) in
    (
      h'',
      rw (p, send_all) p',
      record {
        same_flags = λ j. s'.same_flags j ∙ s.same_flags j;
        bounded = λ b. s'.bounded (s.bounded b);
      },
    )

-- A method that returns, with the invariant.
abbrev pub Safe : Option Manager → Type 0
Safe r = (m' : Manager) × (r ≡ some m') × Inv m'

-- The invariant does not read the operations.
pub Inv-operations :
    (m : Manager) (ops : Map Operation) → Inv m → Inv (record m { operations = ops })
unfolding subscribers
Inv-operations m ops v = record {
  live = v.live;
  distinct = v.distinct;
  apart = v.apart;
  bounded = v.bounded;
}

pub Sent-Inv :
    (m : Manager) (h : ℕ → Channel) → Sent m.channels h → Inv m → Inv (record m { channels = h })
unfolding subscribers
Sent-Inv m h s v = record {
  live = λ k. All-map_of _ _ _ (λ i l. (l.0, s.same_flags i ∙ l.1)) (v.live k);
  distinct = v.distinct;
  apart = v.apart;
  bounded = s.bounded v.bounded;
}

pub emit_event_locked-Inv : (m : Manager) (e : Event) → Inv m → Safe (emit_event_locked m e)
unfolding emit_event_locked
emit_event_locked-Inv m e v =
    let (h, p, s) =
      send_all_lem m.channels (subscribers m e.operation_id) e
        (All-map_of _ _ _ (λ i l. l.1) (v.live e.operation_id)) in
    (record m { channels = h }, rw (p, emit_event_locked), Sent-Inv m h s v)

pub update_and_emit-Inv :
    (m : Manager) (k : String) (op : Operation) (e : Event)
    → Inv m
    → Safe (update_and_emit m k op e)
unfolding update_and_emit
update_and_emit-Inv m k op e v =
    emit_event_locked-Inv _ e (Inv-operations m (put m.operations k op) v)
