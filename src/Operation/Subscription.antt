-- ===== src/Operation/Subscription.antt =====
-- What a subscriber finds in its channel while an operation runs.
use mandau.Base.{
  ℕ, zero, suc, ◌≤◌, ◌≡◌, refl, sym, ap, subst, ◌∙◌, String, true, some, List, [], ◌∷◌, ◌++◌, map,
  arith, eq_refl, eqb_iff, ltb, if◌then◌else◌, length, take, take_all, take-nil, take-append_take,
  append-nil, append_assoc, get, get-put,
}
use mandau.Operation.{
  OperationState, Operation, Event, Channel, Manager, set_channel, capacity, offer, subscribers,
  or_empty,
}
use mandau.Operation.Listeners.{contains, subscribe, with_listener, first_event}
use mandau.Operation.Calls.{Call, step, run}
use mandau.Operation.Registered.{contains-append}
use mandau.Operation.Safety.{step-Safe, subscribe-Inv}
use mandau.Operation.Invariant.{Inv}
use mandau.Operation.Delivery.{
  deliver, Report, call_of, state_after, event_of, events_of, step-Reported, try_send_open,
}

pub step-Inv : (m m' : Manager) (c : Call) → step m c ≡ some m' → Inv m → Inv m'
step-Inv m m' c e v =
    let (n, p, w) = step-Safe m c v in let same : n ≡ m' = cc (p, e) in subst Inv same w

-- An append that is dropped at the bound is an append that is cut off there.
snoc-take {ℓ} :
    {A : Type ℓ} (n : ℕ) (xs : List A) (x : A)
    → length xs ≤ n
    → (if ltb (length xs) n then xs ++ x ∷ [] else xs) ≡ take n (xs ++ x ∷ [])
snoc-take zero [] x h = refl
snoc-take zero (y ∷ xs) x h = absurd (omega arith)
snoc-take {A} (suc n) [] x h = ground (arith, take-nil {A = A} n)
snoc-take (suc n) (y ∷ xs) x h = ground (arith, snoc-take n xs x)

subscribers_eq :
    (m m' : Manager) (k : String) → m'.listeners ≡ m.listeners → subscribers m' k ≡ subscribers m k
unfolding subscribers
subscribers_eq m m' k e = ap (λ ls. or_empty (get ls k)) e

deliver-buffer :
    (h : ℕ → Channel) (is : List ℕ) (e : Event) (i : ℕ)
    → contains i is ≡ true
    → (deliver h is e i).buffer ≡ offer (h i).buffer e
deliver-buffer h is e i c = rw c

take-offer :
    (es es1 rest : List Event) (e : Event)
    → length es ≤ capacity
    → es1 ≡ offer es e
    → take capacity (es1 ++ rest) ≡ take capacity (es ++ e ∷ rest)
take-offer es es1 rest e h p =
    ap (λ l. take capacity (l ++ rest)) (p ∙ snoc-take capacity es e h)
    ∙ take-append_take capacity (es ++ e ∷ []) rest
    ∙ ap (take capacity) (append_assoc es (e ∷ []) rest)

-- What a registered channel holds after some reports: what it held, and then the events of the
-- reports in their order, cut off at ten.
run-reports :
    (m : Manager) (k : String) (op : Operation) (i : ℕ) (rs : List Report)
    → Inv m
    → get m.operations k ≡ some op
    → contains i (subscribers m k) ≡ true
    → (m' : Manager) × (run m (map (call_of k) rs) ≡ some m')
      × ((m'.channels i).buffer ≡ take capacity ((m.channels i).buffer ++ events_of k op.state rs))
unfolding run
run-reports m k op i [] v h c = (m, refl, sym (rw append-nil (take_all capacity _ (v.bounded i))))
run-reports m k op i (r ∷ rs) v h c =
    let (m1, p, d) = step-Reported m k op r v h in
    let (m2, q, b) =
      run-reports m1 k d.op' i rs (step-Inv m m1 _ p v) d.found
        (rw (subscribers_eq m m1 k d.listeners) c) in
    (
      m2,
      rw (p, run) q,
      b
          ∙ ap (λ st. take capacity ((m1.channels i).buffer ++ events_of k st rs)) d.state
          ∙ take-offer (m.channels i).buffer (m1.channels i).buffer _ (event_of k op.state r)
              (v.bounded i)
              (ap (λ h. (h i).buffer) d.channels
                ∙ deliver-buffer m.channels (subscribers m k) _ i c),
    )

-- The manager after a subscription to an operation that is there.
abbrev subscribed : Manager → String → Event → Manager
subscribed m k e = record (with_listener m k) {
  channels =
      set_channel (with_listener m k).channels m.next
        (record ((with_listener m k).channels m.next) {
          buffer = offer ((with_listener m k).channels m.next).buffer e;
        });
}

subscribe_eq :
    (m : Manager) (k : String) (op : Operation) (now : ℕ)
    → get m.operations k ≡ some op
    → subscribe m k now ≡ some (subscribed m k (first_event k op now), m.next)
unfolding subscribe
subscribe_eq m k op now h =
    rw (h, subscribe)
      (rw (
        try_send_open (with_listener m k).channels m.next (first_event k op now)
            (ground (arith, eqb_iff m.next m.next)),
        subscribe,
      ))

subscribed-Inv :
    (m : Manager) (k : String) (op : Operation) (now : ℕ)
    → get m.operations k ≡ some op
    → Inv m
    → Inv (subscribed m k (first_event k op now))
subscribed-Inv m k op now h v =
    let (m1, p, w) = subscribe-Inv m k now v in
    let same : m1 ≡ subscribed m k (first_event k op now) = cc (p, subscribe_eq m k op now h) in
    subst Inv same w

subscribed-contains :
    (m : Manager) (k : String) (e : Event)
    → contains m.next (subscribers (subscribed m k e) k) ≡ true
unfolding subscribers
subscribed-contains m k e =
    simp (get-put, eq_refl)
      (ground (
        arith,
        contains-append m.next m.next (or_empty (get m.listeners k)),
        eqb_iff m.next m.next,
      ))

subscribed-buffer :
    (m : Manager) (k : String) (e : Event) → ((subscribed m k e).channels m.next).buffer ≡ e ∷ []
subscribed-buffer m k e = ground (arith, eqb_iff m.next m.next)

length-events_of :
    (k : String) (s : OperationState) (rs : List Report) → length (events_of k s rs) ≡ length rs
length-events_of k s [] = refl
length-events_of k s (r ∷ rs) = ap suc (length-events_of k (state_after s r) rs)

-- A subscriber that receives nothing while reports are made misses none of those made after it
-- subscribes, if they are at most nine: its channel then holds the state that it subscribed at, and
-- after it the event of every report, in order.
pub subscribe-reports :
    (m : Manager) (k : String) (op : Operation) (now : ℕ) (rs : List Report)
    → Inv m
    → get m.operations k ≡ some op
    → length rs ≤ 9
    → (m1 : Manager) × (m2 : Manager) × (subscribe m k now ≡ some (m1, m.next))
      × (run m1 (map (call_of k) rs) ≡ some m2)
      × ((m2.channels m.next).buffer ≡ first_event k op now ∷ events_of k op.state rs)
subscribe-reports m k op now rs v h l =
    let e : Event = first_event k op now in
    let (m2, p, b) =
      run-reports (subscribed m k e) k op m.next rs (subscribed-Inv m k op now h v) h
        (subscribed-contains m k e) in
    (
      subscribed m k e,
      m2,
      subscribe_eq m k op now h,
      p,
      b
          ∙ ap (λ es. take capacity (es ++ events_of k op.state rs)) (subscribed-buffer m k e)
          ∙ take_all capacity (e ∷ events_of k op.state rs)
              (omega (arith, length-events_of k op.state rs)),
    )
