-- ===== src/Operation/Safety.antt =====
-- No method of the operation manager panics: what is registered is open, and registered once.
use mandau.Base.{
  ℕ, suc, ◌≤◌, ◌≡◌, refl, sym, subst, inl, inr, String, true, false, Option, none, some, List, [],
  ◌∷◌, ◌++◌, arith, eq_iff, eqb, eqb_iff, ◌==◌, get, put, All, All-map_of, All-append, Bool-cases,
  Option-cases, ok,
}
use mandau.Operation.{
  Event, Channel, Manager, new_manager, set_channel, subscribers, or_empty, create_operation,
  Operation,
}
use mandau.Operation.Updates.{
  set_state, set_progress, emit_event, set_error, set_completed, cancel, is_finished, with_result,
}
use mandau.Operation.Listeners.{
  subscribe, with_listener, first_event, unsubscribe, receive, contains, without, close,
}
use mandau.Operation.Calls.{
  Call, creates, sets_state, sets_progress, emits, sets_error, sets_completed, cancels, subscribes,
  unsubscribes, receives, manager_of, step, run,
}
use mandau.Operation.Registered.{
  Live, or_empty-put, contains-append, contains_fresh, Distinct-append, contains-without,
  Distinct-without, contains-without_self, All-without, All-ne,
}
use mandau.Operation.Invariant.{
  Inv, try_send_lem, Safe, Inv-operations, Sent-Inv, emit_event_locked-Inv, update_and_emit-Inv,
}

with_listener-Inv : (m : Manager) (k : String) → Inv m → Inv (with_listener m k)
unfolding subscribers
with_listener-Inv m k v = record {
  live = λ j. rw (or_empty-put m.listeners k j) (elim (Bool-cases (k == j)) [
    | inl e ↦
        rw e (All-append _ _ _ (widen k) ((omega arith, ground (arith, eqb_iff m.next m.next)), tt))
    | inr e ↦ rw e (widen j)
  ]);
  distinct = λ j. rw (or_empty-put m.listeners k j) (elim (Bool-cases (k == j)) [
    | inl e ↦ rw e (Distinct-append m.next _ (fresh k m.next (omega arith)) (v.distinct k))
    | inr e ↦ rw e (v.distinct j)
  ]);
  apart = λ a b i. ground (
    arith,
    or_empty-put m.listeners k a (subscribers m k ++ m.next ∷ []),
    or_empty-put m.listeners k b (subscribers m k ++ m.next ∷ []),
    contains-append i m.next (subscribers m k),
    fresh a i,
    fresh b i,
    fresh k i,
    eqb_iff i m.next,
    eq_iff k a,
    eq_iff k b,
    v.apart a b i,
    v.apart k b i,
    v.apart a k i,
  );
  bounded = λ i. ground (arith, v.bounded i);
}
  where
    fresh : (j : String) (i : ℕ) → m.next ≤ i → contains i (or_empty (get m.listeners j)) ≡ false
    fresh j i = contains_fresh m.channels m.next i _ (v.live j)

    widen :
        (j : String)
        → All (Live (with_listener m k).channels (suc m.next)) (or_empty (get m.listeners j))
    widen j =
        All-map_of _ _ _ (λ i l. (omega arith, ground (arith, l.1, eqb_iff i m.next))) (v.live j)

pub subscribe-Inv :
    (m : Manager) (k : String) (now : ℕ)
    → Inv m
    → (m' : Manager) × (subscribe m k now ≡ some (m', m.next)) × Inv m'
unfolding subscribe
subscribe-Inv m k now v = elim (Option-cases (get m.operations k)) [
  | inl e ↦ (with_listener m k, rw (e, subscribe), with_listener-Inv m k v)
  | inr (op, e) ↦
      let (h, p, s) =
        try_send_lem (with_listener m k).channels m.next (first_event k op now)
          (ground (arith, eqb_iff m.next m.next)) in
      (
        record (with_listener m k) { channels = h },
        rw (e, subscribe) (rw (p, subscribe)),
        Sent-Inv (with_listener m k) h s (with_listener-Inv m k v),
      )
]

close_lem :
    (h : ℕ → Channel) (i : ℕ)
    → (h i).is_closed ≡ false
    → close h i ≡ some (set_channel h i (record (h i) { is_closed = true }))
unfolding close
close_lem h i o = rw o

Live-contains :
    (h : ℕ → Channel) (n i : ℕ) (is : List ℕ)
    → All (Live h n) is
    → contains i is ≡ true
    → Live h n i
Live-contains h n i [] a c = cc
Live-contains h n i (j ∷ is) a c = elim (Bool-cases (eqb i j)) [
  | inl e ↦ subst (Live h n) (sym ((eqb_iff i j).0 e)) a.0
  | inr e ↦ Live-contains h n i is a.1 (ground arith)
]

abbrev without_listener : Manager → String → ℕ → Manager
without_listener m k ch = record m {
  listeners = put m.listeners k (without ch (subscribers m k));
  channels = set_channel m.channels ch (record (m.channels ch) { is_closed = true });
}

without_listener-Inv :
    (m : Manager) (k : String) (ch : ℕ)
    → contains ch (subscribers m k) ≡ true
    → Inv m
    → Inv (without_listener m k ch)
unfolding subscribers
without_listener-Inv m k ch c v = record {
  live = λ j. rw (or_empty-put m.listeners k j) (elim (Bool-cases (k == j)) [
    | inl e ↦
        rw e (still _ (contains-without_self ch _ (v.distinct k)) (All-without _ ch _ (v.live k)))
    | inr e ↦ rw e (still _ (ground (arith, v.apart k j ch c, eq_iff k j)) (v.live j))
  ]);
  distinct = λ j. rw (or_empty-put m.listeners k j) (elim (Bool-cases (k == j)) [
    | inl e ↦ rw e (Distinct-without ch _ (v.distinct k))
    | inr e ↦ rw e (v.distinct j)
  ]);
  apart = λ a b i. ground (
    arith,
    or_empty-put m.listeners k a (without ch (subscribers m k)),
    or_empty-put m.listeners k b (without ch (subscribers m k)),
    contains-without i ch (subscribers m k),
    eq_iff k a,
    eq_iff k b,
    v.apart a b i,
    v.apart k b i,
    v.apart a k i,
  );
  bounded = λ i. ground (arith, v.bounded i, v.bounded ch);
}
  where
    still :
        (is : List ℕ)
        → contains ch is ≡ false
        → All (Live m.channels m.next) is
        → All (Live (without_listener m k ch).channels m.next) is
    still is f a = All-ne _ _ ch is (λ i ne l. (l.0, ground (arith, ne, l.1, eqb_iff i ch))) f a

unsubscribe-Inv : (m : Manager) (k : String) (ch : ℕ) → Inv m → Safe (unsubscribe m k ch)
unfolding unsubscribe
unsubscribe-Inv m k ch v = elim (Bool-cases (contains ch (subscribers m k))) [
  | inl c ↦ (
    without_listener m k ch,
    rw (c, unsubscribe)
        (rw (
          close_lem m.channels ch (Live-contains m.channels m.next ch _ (v.live k) c).1,
          unsubscribe,
        )),
    without_listener-Inv m k ch c v,
  )
  | inr c ↦ (m, rw (c, unsubscribe), v)
]

receive-Inv : (m : Manager) (ch : ℕ) → Inv m → Inv (receive m ch).0
unfolding receive subscribers
receive-Inv m ch v = go (m.channels ch).buffer refl
  where
    go : (es : List Event) → (m.channels ch).buffer ≡ es → Inv (receive m ch).0
    go [] e = rw (e, receive) v
    go (x ∷ es) e =
        rw (e, receive)
          (Sent-Inv m _
            (record {
              same_flags = λ j. ground (arith, eqb_iff j ch);
              bounded = λ b j. ground (arith, b j, b ch);
            })
            v)

on_operation-Safe :
    (m : Manager) (o : Option Operation) (f : Operation → Option Manager)
    → Inv m
    → ((op : Operation) → Safe (f op))
    → Safe (elim o [ none ↦ some m | some op ↦ f op ])
on_operation-Safe m none f v h = (m, refl, v)
on_operation-Safe m (some op) f v h = h op

manager_of-Safe {ℓ} :
    {A : Type ℓ} (a : A) (r : Option Manager) → Safe r → Safe (manager_of (with_result a r))
manager_of-Safe a r (m', p, v) = (m', rw p, v)

cancel-Safe : (m : Manager) (k : String) (now : ℕ) → Inv m → Safe (manager_of (cancel m k now))
unfolding cancel
cancel-Safe m k now v = elim (Option-cases (get m.operations k)) [
  | inl e ↦ (m, rw (e, cancel), v)
  | inr (op, e) ↦ elim (Bool-cases (is_finished op.state)) [
    | inl f ↦ (m, rw (e, cancel) (rw f), v)
    | inr f ↦ rw (e, cancel) (rw f (manager_of-Safe (ok tt) _ (update_and_emit-Inv m k _ _ v)))
  ]
]

-- Every call returns, from a manager that satisfies the invariant to one that does.
pub step-Safe : (m : Manager) (c : Call) → Inv m → Safe (step m c)
unfolding step set_state set_progress set_error set_completed emit_event create_operation
step-Safe m (creates t metadata uuid now) v = (_, refl, Inv-operations m _ v)
step-Safe m (sets_state k s now) v =
    on_operation-Safe m (get m.operations k) _ v λ op. update_and_emit-Inv m k _ _ v
step-Safe m (sets_progress k p now) v =
    on_operation-Safe m (get m.operations k) _ v λ op. update_and_emit-Inv m k _ _ v
step-Safe m (emits k message now) v =
    on_operation-Safe m (get m.operations k) _ v λ op. emit_event_locked-Inv m _ v
step-Safe m (sets_error k e now) v =
    on_operation-Safe m (get m.operations k) _ v λ op. update_and_emit-Inv m k _ _ v
step-Safe m (sets_completed k now) v =
    on_operation-Safe m (get m.operations k) _ v λ op. update_and_emit-Inv m k _ _ v
step-Safe m (cancels k now) v = cancel-Safe m k now v
step-Safe m (subscribes k now) v = let (m', p, v') = subscribe-Inv m k now v in (m', rw p, v')
step-Safe m (unsubscribes k ch) v = unsubscribe-Inv m k ch v
step-Safe m (receives ch) v = (_, refl, receive-Inv m ch v)

pub new_manager-Inv : Inv new_manager
unfolding new_manager subscribers get
new_manager-Inv = record {
  live = λ k. tt;
  distinct = λ k. tt;
  apart = λ k j i h. cc;
  bounded = λ i. omega arith;
}

run-Safe : (m : Manager) (cs : List Call) → Inv m → Safe (run m cs)
unfolding run
run-Safe m [] v = (m, refl, v)
run-Safe m (c ∷ cs) v = let (m', p, v') = step-Safe m c v in rw (p, run) (run-Safe m' cs v')

-- No history of calls panics: none sends on a closed channel, and none closes a channel twice.
-- After it, every registered channel is open, is registered once, under one operation, and holds at
-- most ten events.
pub run-new_manager : (cs : List Call) → Safe (run new_manager cs)
run-new_manager cs = run-Safe new_manager cs new_manager-Inv
