-- ===== src/Operation/Listeners.antt =====
-- `Subscribe` and `Unsubscribe` of pkg/agent/operation/manager.go, and the reading end of a channel.
use mandau.Base.{
  ℕ, suc, String, Bool, true, false, Option, none, some, List, [], ◌∷◌, ◌++◌, ◌||◌, get, put, eqb,
  if◌then◌else◌,
}
use mandau.Operation.{
  Operation, Event, Channel, Manager, new_channel, set_channel, try_send, subscribers,
}
use mandau.Operation.Updates.{message_event}

abbrev pub first_event : String → Operation → ℕ → Event
first_event op_id op now = record (message_event op_id op.state "Subscribed to operation" now) {
  progress = op.progress;
}

-- A new channel, at the end of the operation's listeners.
abbrev pub with_listener : Manager → String → Manager
with_listener m op_id = record m {
  listeners = put m.listeners op_id (subscribers m op_id ++ m.next ∷ []);
  channels = set_channel m.channels m.next new_channel;
  next = suc m.next;
}

unfoldable pub subscribe : Manager → String → ℕ → Option (Manager × ℕ)
subscribe m op_id now =
    let m' : Manager = with_listener m op_id in
    elim (get m.operations op_id) [
      | none ↦ some (m', m.next)
      | some op ↦ elim (try_send m'.channels m.next (first_event op_id op now)) [
        | none ↦ none
        | some h ↦ some (record m' { channels = h }, m.next)
      ]
    ]

abbrev pub contains : ℕ → List ℕ → Bool
contains i [] = false
contains i (j ∷ js) = eqb i j || contains i js

-- `append(listeners[:i], listeners[i+1:]...)` at the first match.
abbrev pub without : ℕ → List ℕ → List ℕ
without i [] = []
without i (j ∷ js) = if eqb i j then js else j ∷ without i js

-- Closing a closed channel panics.
unfoldable pub close : (ℕ → Channel) → ℕ → Option (ℕ → Channel)
close h i =
    if (h i).is_closed then none else some (set_channel h i (record (h i) { is_closed = true }))

unfoldable pub unsubscribe : Manager → String → ℕ → Option Manager
unsubscribe m op_id ch =
    if contains ch (subscribers m op_id)
    then (elim (close m.channels ch) [
      | none ↦ none
      | some h ↦ some (record m {
        listeners = put m.listeners op_id (without ch (subscribers m op_id));
        channels = h;
      })
    ])
    else some m

-- What a reader of a channel sees: `event, ok := <-ch`.
pub data Received : Type 0 where
  received : Event → Received
  ended waits : Received

unfoldable pub receive : Manager → ℕ → Manager × Received
receive m ch = elim (m.channels ch).buffer [
  | [] ↦ (m, if (m.channels ch).is_closed then ended else waits)
  | e ∷ es ↦ (
    record m { channels = set_channel m.channels ch (record (m.channels ch) { buffer = es }) },
    received e,
  )
]
