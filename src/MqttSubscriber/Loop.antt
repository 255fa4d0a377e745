-- ===== src/MqttSubscriber/Loop.antt =====
-- src/collectors/mqtt_subscriber.py, `_run_loop`: one round is a connection that was held and closed, or an
-- exception; then the store is cleaned up, if that is due. Times are in seconds; `uniform` is the jitter.
use meshforge_maps.Base.{ℕ, ◌+◌, Bool, Option, none, some, List, [], ◌∷◌, ltb, not, if◌then◌else◌}
use meshforge_maps.NodeStore.{NodeStore, cleanup_stale_nodes}
use meshforge_maps.Reconnect.{ReconnectStrategy, for_mqtt, next_delay, reset}

-- the subscriber runs, was stopped, or its thread ended with the OverflowError of `next_delay`
pub data Status : Type 0 where
  running stopped crashed : Status

pub record Loop : Type 0 where
  pub status : Status
  pub strategy : ReconnectStrategy
  pub last_cleanup : ℕ
  pub store : NodeStore

unfoldable pub start : ℕ → NodeStore → Loop
start now store = record {
  status = running;
  strategy = for_mqtt;
  last_cleanup = now;
  store = store;
}

pub data Round : Type 0 where
  -- connected at the first time, closed at the second
  held : ℕ → ℕ → Round
  -- an exception at a time; whether `_running` is still set, and `_stop_event` after the wait
  lost : ℕ → Bool → Bool → Round

abbrev pub cleanup_period : ℕ
cleanup_period = 1800

-- the cleanup at the end of a round
unfoldable pub clean_up : ℕ → Loop → Loop
clean_up now l =
    if ltb (l.last_cleanup + cleanup_period) now
    then record l { store = (cleanup_stale_nodes now l.store).0; last_cleanup = now }
    else l

abbrev pub with_status : Status → Loop → Loop
with_status status l = record l { status = status }

-- the wait after an exception
abbrev pub wait_with : Option (ReconnectStrategy × ℕ) → Bool → ℕ → Loop → Loop
wait_with none stopping now l = with_status crashed l
wait_with (some (strategy, delay)) stopping now l =
    if stopping
    then record l { strategy = strategy; status = stopped }
    else clean_up now (record l { strategy = strategy })

unfoldable pub round : (ℕ → ℕ) → Round → ℕ → Loop → Loop
round uniform (held opened closed) now l =
    clean_up now
      (record l { strategy = if ltb (opened + 30) closed then reset l.strategy else l.strategy })
round uniform (lost time is_running stopping) now l =
    if not is_running
    then with_status stopped l
    else wait_with (next_delay uniform time l.strategy) stopping now l

-- `while self._running.is_set()`, and then a round with the time at its end
unfoldable pub turn : (ℕ → ℕ) → Bool → Round → ℕ → Loop → Loop
turn uniform is_set r now l = if not is_set then with_status stopped l else round uniform r now l

-- the turns of the loop, each with whether `_running` is set at its start, while the loop goes on
unfoldable pub run : (ℕ → ℕ) → Loop → List (Bool × Round × ℕ) → Loop
run uniform l [] = l
run uniform l ((is_set, r, now) ∷ turns) = elim l.status [
  | running ↦ run uniform (turn uniform is_set r now l) turns
  | stopped ↦ l
  | crashed ↦ l
]
