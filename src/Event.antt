-- ===== src/Event.antt =====
-- The events of src/pg_rest_event.c: a libevent event is what libevent has pending of it. Whether
-- `event_add` and `event_del` of libevent succeed is a parameter of each call.
mod Tests
use pg_rest.Base.{
  ℕ, zero, suc, ◌+◌, ◌*◌, ◌/◌, ◌%◌, ◌≡◌, refl, Bool, true, false, Option, none, some, ◌&&◌, ◌==◌,
  inl, inr, Bool-cases, if◌then◌else◌, arith,
}

-- The seconds and microseconds of `struct timeval`, where NULL waits for ever.
pub record Event : Type 0 where
  pub pending : Bool
  pub timeout : Option (ℕ × ℕ)

-- `timeout ? &tv : NULL`
unfoldable pub timeval : ℕ → Option (ℕ × ℕ)
timeval timeout = if timeout == 0 then none else some (timeout / 1000, timeout % 1000 * 1000)

-- What `events` asks for: what the event waits for, EV_READ or EV_WRITE; the other of the two; or
-- EV_TIMEOUT.
pub data Asked : Type 0 where
  own other timer : Asked

-- `event_pending` of libevent, which tells whether an event is pending for what is asked: for
-- EV_TIMEOUT, where it has a timeout, and for EV_READ or EV_WRITE, where it waits for that.
unfoldable pub event_pending : Asked → Event → Bool
event_pending own ev = ev.pending
event_pending other ev = false
event_pending timer ev = ev.pending && elim ev.timeout [ none ↦ false | some t ↦ true ]

-- `pgrest_event_add`: what it returns, and the event.
unfoldable pub event_add : Bool → Asked → Event → ℕ → Bool × Event
unfolding timeval event_pending
event_add granted asked ev timeout =
    if event_pending asked ev
    then (true, ev)
    else if granted
    then (true, record { pending = true; timeout = timeval timeout })
    else (false, ev)

-- `pgrest_event_del`
unfoldable pub event_del : Bool → Asked → Event → Bool × Event
unfolding event_pending
event_del granted asked ev =
    if event_pending asked ev
    then if granted then (true, record { pending = false; timeout = none }) else (false, ev)
    else (true, ev)

-- Where libevent refuses nothing the event is pending after the one call, and not after the other.
pub event_add-granted :
    (granted : Bool) (ev : Event) (timeout : ℕ)
    → granted ≡ true
    → ((event_add granted own ev timeout).0 ≡ true)
      × ((event_add granted own ev timeout).1.pending ≡ true)
unfolding event_add event_pending
event_add-granted granted ev timeout g = elim (Bool-cases ev.pending) [
  | inl p ↦ simp (p, g, event_add) (refl, refl)
  | inr p ↦ simp (p, g, event_add) (refl, refl)
]

pub event_del-granted :
    (granted : Bool) (ev : Event)
    → granted ≡ true
    → ((event_del granted own ev).0 ≡ true) × ((event_del granted own ev).1.pending ≡ false)
unfolding event_del event_pending
event_del-granted granted ev g = elim (Bool-cases ev.pending) [
  | inl p ↦ simp (p, g, event_del) (refl, refl)
  | inr p ↦ simp (p, g, event_del) (refl, refl)
]
