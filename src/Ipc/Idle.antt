-- ===== src/Ipc/Idle.antt =====
-- When libevent calls the write handler of src/pg_rest_ipc.c: its event is the one for writing.
use pg_rest.Base.{ℕ, true, false, ◌^◌, ◌<◌, ◌≡◌, refl, ap, sym, ◌∙◌, subst, Bool, [], ◌∷◌, ◌++◌}
use mathlib.Core.Bool.{false≢true}
use pg_rest.Text.{Bytes}
use pg_rest.Buffer.{Os}
use pg_rest.Buffer.Contents.{contents}
use pg_rest.Event.{Event}
use pg_rest.Ipc.{
  ready, Channel, notified, notify_conn, setup_handler, Sending, kept, write_handler, idle,
}
use pg_rest.Ipc.Notify.{IsHeap, Queued, notify_conn-Queued}
use pg_rest.Ipc.Order.{Fresh, setup_handler-Fresh}

-- A sender's connection, the commands whose notify returned true, and the bytes sent.
pub record Sender : Type 0 where
  pub channel : Channel
  pub accepted : Bytes
  pub out : Bytes

-- A channel set up for writing, its notifies, and the calls of its write handler, which libevent
-- makes where the event for writing is pending.
pub data Runs : Sender → Type 0 where
  begins :
      (os : Os) (connected pooled events assigned granted : Bool) (c : Channel)
      → setup_handler os connected pooled events assigned false granted ≡ ready c
      → Runs (record { channel = c; accepted = []; out = [] })
  notifies :
      (os : Os) (granted : Bool) (x : ℕ) (s : Sender) (d : Channel)
      → Runs s
      → s.channel.buffer.size < 2 ^ 18
      → notify_conn os granted s.channel x ≡ notified true d
      → Runs (record s { channel = d; accepted = s.accepted ++ x ∷ [] })
  refuses :
      (os : Os) (granted : Bool) (x : ℕ) (s : Sender) (d : Channel)
      → Runs s
      → s.channel.buffer.size < 2 ^ 18
      → notify_conn os granted s.channel x ≡ notified false d
      → Runs (record s { channel = d })
  writes :
      (granted : Bool) (answer : Sending) (s : Sender) (d : Channel) (more : Bytes)
      → Runs s
      → s.channel.wev.pending ≡ true
      → write_handler granted s.channel answer ≡ kept d more
      → Runs (record s { channel = d; out = s.out ++ more })

-- Nothing was sent, all that was accepted waits, and no call of the write handler is to come.
pub record IsStuck (s : Sender) : Type 0 where
  pub heap : IsHeap s.channel.buffer
  pub waits : contents s.channel.buffer ≡ s.accepted
  pub unsent : s.out ≡ []
  pub unscheduled : s.channel.wev ≡ idle

module _ (s : Sender) (v : IsStuck s) (os : Os) (x : ℕ) (d : Channel) where
  notify_more :
      Queued os s.channel x (notified true d)
      → IsStuck (record s { channel = d; accepted = s.accepted ++ x ∷ [] })
  unfolding Queued
  notify_more q = record {
    heap = q.0;
    waits = q.1 ∙ ap (λ z. z ++ x ∷ []) v.waits;
    unsent = v.unsent;
    unscheduled = q.2 ∙ v.unscheduled;
  }

  refuse_more : Queued os s.channel x (notified false d) → IsStuck (record s { channel = d })
  unfolding Queued
  refuse_more q = record {
    heap = q.0;
    waits = q.1 ∙ v.waits;
    unsent = v.unsent;
    unscheduled = q.2 ∙ v.unscheduled;
  }

-- From the setup of a channel for writing on, whatever notifies follow, while less than 2^18
-- commands wait, no byte is ever sent: the event for writing never becomes pending, as a notify adds
-- the event for reading, and all the commands whose notify returned true still wait in the buffer.
pub Runs-IsStuck : (s : Sender) → Runs s → IsStuck s
Runs-IsStuck _ (begins os connected pooled events assigned granted c e) =
    let fresh =
      subst Fresh e (setup_handler-Fresh os connected pooled events assigned false granted) in
    record { heap = fresh.0; waits = fresh.1; unsent = refl; unscheduled = fresh.2 }
Runs-IsStuck _ (notifies os granted x s d r lt e) =
    let v = Runs-IsStuck s r in
    notify_more s v os x d
      (subst (Queued os s.channel x) e (notify_conn-Queued os granted s.channel x v.heap lt))
Runs-IsStuck _ (refuses os granted x s d r lt e) =
    let v = Runs-IsStuck s r in
    refuse_more s v os x d
      (subst (Queued os s.channel x) e (notify_conn-Queued os granted s.channel x v.heap lt))
Runs-IsStuck _ (writes granted answer s d more r p e) =
    let v = Runs-IsStuck s r in
    absurd (false≢true (ap (λ (ev : Event). ev.pending) (sym v.unscheduled) ∙ p))
