-- ===== src/Ipc/Stream.antt =====
-- The commands of src/pg_rest_ipc.c on their way from one worker to another.
use pg_rest.Base.{
  ℕ, true, false, ◌^◌, ◌<◌, ◌≡◌, refl, ap, ◌∙◌, Bool, Option, none, some, List, [], ◌∷◌, ◌++◌, inl,
  inr, Option-cases, get_elem?,
}
use mathlib.Core.Option.{some-injective, none-ne-some}
use pg_rest.Text.{Bytes}
use pg_rest.Buffer.{Os}
use pg_rest.Buffer.Contents.{contents}
use pg_rest.Ipc.{
  ready, Channel, notified, notify_conn, setup_handler, Sending, kept, write_handler, Receiving,
  received, recv_again, recv_zero, recv_error, call_first, dispatch, ReadEnd, waiting, lost, unread,
  called_before, read_handler,
}
use pg_rest.Ipc.Notify.{IsHeap}
use pg_rest.Ipc.Write.{Within}

-- The bytes of the answers that the read handler takes.
unfoldable pub taken : List Receiving → Bytes
taken [] = []
taken (received commands ∷ answers) = commands ++ taken answers
taken (recv_again ∷ answers) = []
taken (recv_zero ∷ answers) = []
taken (recv_error ∷ answers) = []

-- What is waiting in the kernel and what was called is nothing of an end that closes the connection.
abbrev pub Calls : List Bool → Bytes → ReadEnd → Type 0
Calls handlers read (waiting called) = dispatch handlers read ≡ some called
Calls handlers read (lost called) = dispatch handlers read ≡ some called
Calls handlers read unread = Unit

call_first-append :
    (o : Option Bool) (x : ℕ) (r : Option Bytes) (called rest : Bytes) (s : Option Bytes)
    → ((c : Bytes) → r ≡ some c → s ≡ some (c ++ rest))
    → call_first o x r ≡ some called
    → call_first o x s ≡ some (called ++ rest)
unfolding call_first
call_first-append none x r called rest s h e = absurd (none-ne-some called e)
call_first-append (some b) x none called rest s h e = absurd (none-ne-some called e)
call_first-append (some true) x (some c) called rest s h e =
    rw (h c refl) (ap (λ z. some (z ++ rest)) (some-injective (x ∷ c) called e))
call_first-append (some false) x (some c) called rest s h e =
    rw (h c refl) (ap (λ z. some (z ++ rest)) (some-injective c called e))

pub dispatch-append :
    (handlers : List Bool) (xs ys called rest : Bytes)
    → dispatch handlers xs ≡ some called
    → dispatch handlers ys ≡ some rest
    → dispatch handlers (xs ++ ys) ≡ some (called ++ rest)
unfolding dispatch
dispatch-append handlers [] ys called rest e f =
    f ∙ ap (λ z. some (z ++ rest)) (some-injective [] called e)
dispatch-append handlers (x ∷ xs) ys called rest e f =
    call_first-append (get_elem? handlers x) x (dispatch handlers xs) called rest
      (dispatch handlers (xs ++ ys)) (λ c g. dispatch-append handlers xs ys c rest g f) e

called_before-Calls :
    (handlers : List Bool) (xs ys called : Bytes) (r : ReadEnd)
    → dispatch handlers xs ≡ some called
    → Calls handlers ys r
    → Calls handlers (xs ++ ys) (called_before called r)
unfolding called_before
called_before-Calls handlers xs ys called (waiting rest) e f =
    dispatch-append handlers xs ys called rest e f
called_before-Calls handlers xs ys called (lost rest) e f =
    dispatch-append handlers xs ys called rest e f
called_before-Calls handlers xs ys called unread e f = tt

-- However the bytes are cut into pieces, the calls are those for all of them in order.
pub read_handler-Calls :
    (handlers : List Bool) (answers : List Receiving)
    → Calls handlers (taken answers) (read_handler handlers answers)
unfolding read_handler taken dispatch
read_handler-Calls handlers [] = refl
read_handler-Calls handlers (received commands ∷ answers) =
    elim (Option-cases (dispatch handlers commands)) [
      | inl e ↦ rw (e, read_handler) tt
      | inr (called, e) ↦
          rw (e, read_handler)
            (called_before-Calls handlers commands (taken answers) called
              (read_handler handlers answers) e (read_handler-Calls handlers answers))
    ]
read_handler-Calls handlers (recv_again ∷ answers) = refl
read_handler-Calls handlers (recv_zero ∷ answers) = refl
read_handler-Calls handlers (recv_error ∷ answers) = refl

-- The sender's connection, the bytes in the socket, and what happened so far: the commands whose
-- notify returned true, the bytes that were read, and the commands whose handler was called.
pub record Link : Type 0 where
  pub channel : Channel
  pub socket : Bytes
  pub accepted : Bytes
  pub delivered : Bytes
  pub calls : Bytes

-- What the notifies, the write handler and the read handler make of a channel that was set up, in
-- any order and with any answers of the system, while less than 2^18 commands wait in the buffer.
pub data Reach (handlers : List Bool) : Link → Type 0 where
  begins :
      (os : Os) (connected pooled events assigned reading granted : Bool) (c : Channel)
      → setup_handler os connected pooled events assigned reading granted ≡ ready c
      → Reach handlers
          (record { channel = c; socket = []; accepted = []; delivered = []; calls = [] })
  notifies :
      (os : Os) (granted : Bool) (x : ℕ) (s : Link) (d : Channel)
      → Reach handlers s
      → s.channel.buffer.size < 2 ^ 18
      → notify_conn os granted s.channel x ≡ notified true d
      → Reach handlers (record s { channel = d; accepted = s.accepted ++ x ∷ [] })
  refuses :
      (os : Os) (granted : Bool) (x : ℕ) (s : Link) (d : Channel)
      → Reach handlers s
      → s.channel.buffer.size < 2 ^ 18
      → notify_conn os granted s.channel x ≡ notified false d
      → Reach handlers (record s { channel = d })
  writes :
      (granted : Bool) (answer : Sending) (s : Link) (d : Channel) (out : Bytes)
      → Reach handlers s
      → Within answer s.channel.buffer.size
      → write_handler granted s.channel answer ≡ kept d out
      → Reach handlers (record s { channel = d; socket = s.socket ++ out })
  reads :
      (answers : List Receiving) (s : Link) (left called : Bytes)
      → Reach handlers s
      → s.socket ≡ taken answers ++ left
      → read_handler handlers answers ≡ waiting called
      → Reach handlers (record s {
        socket = left;
        delivered = s.delivered ++ taken answers;
        calls = s.calls ++ called;
      })

-- Every command accepted was read, is in the socket or waits in the buffer, once and in order, and
-- the handlers were called for those read.
pub record InOrder (handlers : List Bool) (s : Link) : Type 0 where
  pub heap : IsHeap s.channel.buffer
  pub order : s.accepted ≡ s.delivered ++ (s.socket ++ contents s.channel.buffer)
  pub called : dispatch handlers s.delivered ≡ some s.calls
