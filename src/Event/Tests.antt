-- ===== src/Event/Tests.antt =====
-- Runs of the events of src/pg_rest_event.c.
use pg_rest.Base.{◌≡◌, refl, true, false, none, some}
use pg_rest.Event.{own, timer, event_add, event_del, event_pending, timeval}

add_run :
    event_add true own (record { pending = false; timeout = none }) 65500
    ≡ (true, record { pending = true; timeout = some (65, 500000) })
unfolding event_add timeval event_pending
add_run = refl

del_run : (event_del true own (record { pending = true; timeout = none })).1.pending ≡ false
unfolding event_del event_pending
del_run = refl

-- An event without a timeout is not pending for EV_TIMEOUT, and stays.
del_timer_run : (event_del true timer (record { pending = true; timeout = none })).1.pending ≡ true
unfolding event_del event_pending
del_timer_run = refl
