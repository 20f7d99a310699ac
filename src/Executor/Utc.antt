-- ===== src/Executor/Utc.antt =====
-- internal/agent/utc.go: the events of an executor with their timestamps in UTC.
use a2abridge.Prelude.{ℕ, zero, suc, List, [], ◌∷◌}
use a2abridge.A2a.{Stamp, Status, Task}
use a2abridge.TaskStore.Data.{status_in_utc}

-- The SDK's events by what `eventInUTC` tells apart, and an error in an event's place.
pub data SdkEvent : Type 0 where
  status_update : Status → SdkEvent
  whole_task : Task → SdkEvent
  without_time : SdkEvent
  an_error : SdkEvent

-- `eventInUTC`
unfoldable pub event_in_utc : (Stamp → Stamp) → SdkEvent → SdkEvent
unfolding status_in_utc
event_in_utc in_utc (status_update s) = status_update (status_in_utc in_utc s)
event_in_utc in_utc (whole_task t) =
    whole_task (record t { status = status_in_utc in_utc t.status })
event_in_utc in_utc without_time = without_time
event_in_utc in_utc an_error = an_error

-- `utcEvents`, for a consumer that takes so many events and then stops.
unfoldable pub utc_events : (Stamp → Stamp) → ℕ → List SdkEvent → List SdkEvent
unfolding event_in_utc
utc_events in_utc takes [] = []
utc_events in_utc zero (e ∷ l) = event_in_utc in_utc e ∷ []
utc_events in_utc (suc takes) (e ∷ l) = event_in_utc in_utc e ∷ utc_events in_utc takes l
