-- ===== src/Ipc.antt =====
-- The channel between two workers of src/pg_rest_ipc.c. A connection is its buffer and its two
-- events, and a pointer to it an index in the list of the worker's connections. The socket is a
-- stream of bytes. What `send` and `recv` answer are parameters.

pub mod Notify
pub mod Write
pub mod Stream
pub mod Order
pub mod Idle
pub mod Drain
pub mod Lost
mod Tests
use pg_rest.Base.{
  ℕ, zero, suc, ◌+◌, ◌%◌, Bool, true, false, Option, none, some, List, [], ◌∷◌, ◌++◌, ◌==◌, ◌&&◌,
  if◌then◌else◌, length, get_elem?, set, take, drop,
}
use pg_rest.Text.{Bytes}
use pg_rest.Array.{size_mod}
use pg_rest.Buffer.{
  Buffer, Os, Reserved, Iovec, reserved, looping, null_write, buffer_reserve, buffer_create,
  consume,
}
use pg_rest.Event.{Event, own, other, event_add, event_del}

-- The fields of `struct pgrest_connection_s` that the channel uses.
pub record Channel : Type 0 where
  pub buffer : Buffer
  pub rev : Event
  pub wev : Event

abbrev pub idle : Event
idle = record { pending = false; timeout = none }

-- What the setup of a channel leaves: the channel, nothing, or a write through the NULL that
-- `conn->rev` or `conn->wev` is.
pub data Setup : Type 0 where
  ready : Channel → Setup
  refused : Setup
  null_event : Setup

-- The end of the setup, where `event_assign` writes to the event; a failure is `assigned` false.
unfoldable pub assign_event : Bool → Bool → Bool → Bool → Buffer → Setup
unfolding event_add
assign_event events assigned reading granted buf =
    if events
    then if assigned
      then ready (record {
        buffer = buf;
        rev = if reading then (event_add granted own idle 0).1 else idle;
        wev = idle;
      })
      else refused
    else null_event

-- `pgrest_ipc_setup_handler`: whether there is a free connection, its pool is created, the connection
-- has its two events and the one is assigned are parameters, and `reading` stands for EV_READ in
-- `events`. The connection of `pgrest_conn_get` does not have them: it clears the two pointers.
unfoldable pub setup_handler : Os → Bool → Bool → Bool → Bool → Bool → Bool → Setup
unfolding buffer_create assign_event
setup_handler os connected pooled events assigned reading granted =
    if connected && pooled
    then elim (buffer_create os 1024) [
      | none ↦ refused
      | some buf ↦ assign_event events assigned reading granted buf
    ]
    else refused

-- What a notify leaves: the value it returns and the state, or an end of `buffer_reserve` that
-- returns nothing.
pub data Notified (State : Type 0) : Type 0 where
  notified : Bool → State → Notified State
  hangs : Notified State
  crashes : Notified State

-- The command at the vector, counted, and its write scheduled: on the event for reading, as written,
-- with EV_WRITE, which that event does not wait for.
unfoldable pub put_command : Bool → Channel → Buffer → ℕ → ℕ → Notified Channel
unfolding event_add
put_command granted c buf base command = notified true (record {
  buffer = record buf { size = (buf.size + 1) % size_mod; start = set buf.start base command };
  rev = (event_add granted other c.rev 0).1;
  wev = c.wev;
})

-- With the vector that the buffer reserved.
unfoldable pub notify_reserved : Bool → Channel → ℕ → Reserved → Notified Channel
unfolding put_command
notify_reserved granted c command (reserved buf v) = elim v.base [
  | none ↦ notified false (record c { buffer = buf })
  | some base ↦ put_command granted c buf base command
]
notify_reserved granted c command looping = hangs
notify_reserved granted c command null_write = crashes

-- What follows the test for a connection.
unfoldable pub notify_conn : Os → Bool → Channel → ℕ → Notified Channel
unfolding notify_reserved
notify_conn os granted c command = notify_reserved granted c command (buffer_reserve os c.buffer 1)

-- What `pgrest_conn_send` returns.
pub data Sending : Type 0 where
  sent : ℕ → Sending
  send_again send_error : Sending

-- Whether the handler left the connection or closed it, and the bytes that went out.
pub data Written : Type 0 where
  kept : Channel → Bytes → Written
  closed : Written

-- The label `schedule`.
unfoldable pub schedule : Bool → Channel → Bytes → Written
schedule granted c out =
    if c.buffer.size == 0
    then kept c out
    else kept (record c { rev = (event_add granted other c.rev 0).1 }) out

-- The bytes that were sent are those in front.
unfoldable pub write_sent : Bool → Channel → Sending → Written
unfolding schedule
write_sent granted c (sent n) =
    if n == 0
    then schedule granted c []
    else schedule granted (record c { buffer = consume c.buffer n })
        (take n (drop c.buffer.pos c.buffer.start))
write_sent granted c send_again = schedule granted c []
write_sent granted c send_error = closed

-- `pgrest_ipc_write_handler`
unfoldable pub write_handler : Bool → Channel → Sending → Written
unfolding write_sent
write_handler granted c answer =
    if c.buffer.size == 0
    then kept (record c { wev = (event_del granted own c.wev).1 }) []
    else write_sent granted c answer

-- What `pgrest_conn_recv` gives.
pub data Receiving : Type 0 where
  received : Bytes → Receiving
  recv_again recv_zero recv_error : Receiving

-- One command, before the calls for the rest: `none` stands for a command behind the table.
unfoldable pub call_first : Option Bool → ℕ → Option Bytes → Option Bytes
call_first none command rest = none
call_first (some is_set) command none = none
call_first (some is_set) command (some called) = some (if is_set then command ∷ called else called)

-- The loop over the commands: those whose handler was called. `handlers` says where a handler is
-- set.
unfoldable pub dispatch : List Bool → Bytes → Option Bytes
unfolding call_first
dispatch handlers [] = some []
dispatch handlers (command ∷ commands) =
    call_first (get_elem? handlers command) command (dispatch handlers commands)

-- How the loop of the read handler ends: it waits for more, it closes the connection, or it reads
-- behind the table. The calls are those made until then.
pub data ReadEnd : Type 0 where
  waiting lost : Bytes → ReadEnd
  unread : ReadEnd

unfoldable pub called_before : Bytes → ReadEnd → ReadEnd
called_before called (waiting rest) = waiting (called ++ rest)
called_before called (lost rest) = lost (called ++ rest)
called_before called unread = unread

-- `pgrest_ipc_read_handler`, on the answers of `recv` in order; where they end, it would block.
unfoldable pub read_handler : List Bool → List Receiving → ReadEnd
unfolding dispatch called_before
read_handler handlers [] = waiting []
read_handler handlers (received commands ∷ answers) = elim (dispatch handlers commands) [
  | none ↦ unread
  | some called ↦ called_before called (read_handler handlers answers)
]
read_handler handlers (recv_again ∷ answers) = waiting []
read_handler handlers (recv_zero ∷ answers) = lost []
read_handler handlers (recv_error ∷ answers) = lost []

-- `pgrest_ipc_data` and the connections that its entries point to.
pub record Ipc : Type 0 where
  pub ipc_data : List (Option ℕ)
  pub conns : List Channel

abbrev pub pointer_of : Option (Option ℕ) → Option ℕ
pointer_of none = none
pointer_of (some p) = p

-- `pgrest_ipc_set_conn`: the first entry with the connection becomes NULL.
unfoldable pub set_conn : ℕ → List (Option ℕ) → List (Option ℕ)
set_conn conn [] = []
set_conn conn (none ∷ entries) = none ∷ set_conn conn entries
set_conn conn (some p ∷ entries) =
    if p == conn then none ∷ entries else some p ∷ set_conn conn entries

-- The connection that the pointer leads to, written back.
unfoldable pub store : Ipc → ℕ → Notified Channel → Notified Ipc
store ipc p (notified b c) = notified b (record ipc { conns = set ipc.conns p c })
store ipc p hangs = hangs
store ipc p crashes = crashes

unfoldable pub notify_pointed : Os → Bool → Ipc → ℕ → ℕ → Option Channel → Notified Ipc
unfolding store notify_conn
notify_pointed os granted ipc p command none = crashes
notify_pointed os granted ipc p command (some c) = store ipc p (notify_conn os granted c command)

-- `pgrest_ipc_send_notify`
unfoldable pub send_notify : Os → Bool → Ipc → ℕ → ℕ → Notified Ipc
unfolding notify_pointed
send_notify os granted ipc dest command = elim (pointer_of (get_elem? ipc.ipc_data dest)) [
  | none ↦ notified false ipc
  | some p ↦ notify_pointed os granted ipc p command (get_elem? ipc.conns p)
]

-- The label `fail` of both handlers, once `pgrest_conn_close` has closed the connection.
unfoldable pub fail : ℕ → Ipc → Ipc
unfolding set_conn
fail conn ipc = record ipc { ipc_data = set_conn conn ipc.ipc_data }
