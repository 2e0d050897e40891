-- ===== src/Abi/Events.antt =====
-- The code that go-ethereum's generator writes for each event of a contract, over the event:
-- bundler/src/abi/entrypoint.go and bundler/src/abi/erc20.go have it once for each of their nine
-- events. A channel is the list of what waits in it, and `select` is told which case it takes.
pub mod Delivery
pub mod Iteration
pub mod Blocking
pub mod Drain
pub mod Watching
pub mod Stopping
use pay_gas_x.Base.{
  Bool, true, false, List, [], ◌∷◌, ◌++◌, Option, none, some, Text, Result, ok, err, M, map, return,
  ◌>>=◌,
}
use pay_gas_x.Geth.{Geth}
use pay_gas_x.Abi.Types.{Value}

-- `event.Subscription`: what its channel `Err()` holds, where a nil error tells of the end, and
-- whether it was unsubscribed.
pub record Subscription : Type 0 where
  pub ended : Option (Option Text)
  pub is_unsubscribed : Bool

abbrev pub unsubscribe : Subscription → Subscription
unsubscribe sub = record sub { is_unsubscribed = true }

-- The channel of logs and the subscription that `FilterLogs` and `WatchLogs` return.
pub record Feed (Log : Type 0) : Type 0 where
  pub logs : List Log
  pub sub : Subscription

-- What the generated code uses of go-ethereum for logs, as parameters. `Log` is `types.Log`.
pub record Logs (g : Geth) : Type 1 where
  pub Log : Type 0
  pub zero_log : Log
  pub FilterOpts : Type 0
  pub WatchOpts : Type 0
  pub filter_logs :
      g.BoundContract
      → FilterOpts
      → Text
      → List (List (Value g.Address))
      → M g.Node (Result (Feed Log))
  pub watch_logs :
      g.BoundContract
      → WatchOpts
      → Text
      → List (List (Value g.Address))
      → M g.Node (Result (Feed Log))

-- `(*BoundContract).UnpackLog` at the event's struct: the struct as the call leaves it, and the
-- error.
abbrev pub UnpackLog : Type 0 → Type 0 → Type 0 → Type 0
UnpackLog Contract Log Event = Contract → Text → Log → Event → Event × Option Text

-- What the generated code of one event has of its own: the struct, `new`, the store of `Raw`, the
-- event's name.
pub record EventKind (Contract Log : Type 0) : Type 1 where
  pub Event : Type 0
  pub name : Text
  pub new : Event
  pub with_raw : Log → Event → Event
  pub unpack_log : UnpackLog Contract Log Event

-- The struct of an iterator.
pub record Iterator (Contract Log Event : Type 0) : Type 0 where
  pub event_value : Option Event
  pub contract : Contract
  pub event : Text
  pub logs : List Log
  pub sub : Subscription
  pub is_done : Bool
  pub fail : Option Text

-- The case of the `select` of `Next`.
pub data NextCase : Type 0 where
  log_case : NextCase
  err_case : NextCase

-- Where the function given to `event.NewSubscription` stands: at the outer `select`, at the inner
-- one with an event to send, or returned.
pub data Phase (Event : Type 0) : Type 0 where
  waiting : Phase Event
  sending : Event → Phase Event
  stopped : Option Text → Phase Event

-- What that function works on. `quit` tells that the channel is closed, `sink` is what was sent.
pub record Watch (Contract Log Event : Type 0) : Type 0 where
  pub contract : Contract
  pub logs : List Log
  pub sub : Subscription
  pub quit : Bool
  pub sink : List Event
  pub phase : Phase Event

pub data WatchCase : Type 0 where
  take_log : WatchCase
  send_event : WatchCase
  take_err : WatchCase
  take_quit : WatchCase

module _ {Contract Log : Type 0} (k : EventKind Contract Log) where
  open k use {Event, new, with_raw, unpack_log}

  unfoldable pub parse : Contract → Log → Result Event
  parse contract log =
      let (event, e) = unpack_log contract k.name log new in
      elim e [ some m ↦ err m | none ↦ ok (with_raw log event) ]

  abbrev pub It : Type 0
  It = Iterator Contract Log Event

  -- The iterator that a filter returns.
  abbrev pub iterator : Contract → Feed Log → It
  iterator contract feed = record {
    event_value = none;
    contract = contract;
    event = k.name;
    logs = feed.logs;
    sub = feed.sub;
    is_done = false;
    fail = none;
  }

  -- The case of a log, in either `select`.
  unfoldable pub receive : It → Log → List Log → Bool × It
  receive it log rest =
      let (event, e) = unpack_log it.contract it.event log new in
      elim e [
        | some m ↦ (false, record it { event_value = some event; logs = rest; fail = some m })
        | none ↦ (true, record it { event_value = some (with_raw log event); logs = rest })
      ]

  -- The `select` once the subscription has ended, which does not wait.
  unfoldable pub buffered : It → Bool × It
  buffered it = elim it.logs [ [] ↦ (false, it) | log ∷ rest ↦ receive it log rest ]

  -- `Next` of an iterator that is done.
  unfoldable pub next_done : It → Bool × It
  next_done it = elim it.fail [ some _ ↦ (false, it) | none ↦ buffered it ]

  -- The `select` that waits: `none` where the case cannot be taken yet.
  unfoldable pub in_progress : NextCase → It → Option (Bool × It)
  in_progress log_case it = elim it.logs [ [] ↦ none | log ∷ rest ↦ some (receive it log rest) ]
  in_progress err_case it = elim it.sub.ended [
    | none ↦ none
    | some e ↦ some (next_done (record it { is_done = true; fail = e }))
  ]

  unfoldable pub next : NextCase → It → Option (Bool × It)
  next c it = elim it.fail [
    | some _ ↦ some (false, it)
    | none ↦ elim it.is_done [ true ↦ some (buffered it) | false ↦ in_progress c it ]
  ]

  abbrev pub error : It → Option Text
  error it = it.fail

  -- `Close` returns nil.
  abbrev pub close : It → Option Text × It
  close it = (none, record it { sub = unsubscribe it.sub })

  abbrev pub W : Type 0
  W = Watch Contract Log Event

  -- What `event.NewSubscription` starts.
  abbrev pub watching : Contract → Feed Log → W
  watching contract feed = record {
    contract = contract;
    logs = feed.logs;
    sub = feed.sub;
    quit = false;
    sink = [];
    phase = waiting;
  }

  -- A `return`, with the deferred `Unsubscribe`.
  unfoldable pub stop : Option Text → W → W
  stop e w = record w { phase = stopped e; sub = unsubscribe w.sub }

  unfoldable pub on_log : W → Option W
  on_log w = elim w.logs [
    | [] ↦ none
    | log ∷ rest ↦ elim (parse w.contract log) [
      | err m ↦ some (stop (some m) (record w { logs = rest }))
      | ok event ↦ some (record w { logs = rest; phase = sending event })
    ]
  ]

  unfoldable pub on_err : W → Option W
  on_err w = elim w.sub.ended [ none ↦ none | some e ↦ some (stop e w) ]

  unfoldable pub on_quit : W → Option W
  on_quit w = elim w.quit [ false ↦ none | true ↦ some (stop none w) ]

  -- One case of the `select` the function stands at; `none` where it cannot be taken.
  unfoldable pub watch : WatchCase → W → Option W
  watch c w = elim w.phase [
    | waiting ↦ elim c [
      | take_log ↦ on_log w
      | send_event ↦ none
      | take_err ↦ on_err w
      | take_quit ↦ on_quit w
    ]
    | sending event ↦ elim c [
      | take_log ↦ none
      | send_event ↦ some (record w { sink = w.sink ++ event ∷ []; phase = waiting })
      | take_err ↦ on_err w
      | take_quit ↦ on_quit w
    ]
    | stopped _ ↦ none
  ]

-- A rule of a filter: one value for each item of the argument.
abbrev pub rule : {Address A : Type 0} → (A → Value Address) → List A → List (Value Address)
rule value items = map value items

module _ (g : Geth) (l : Logs g) (k : EventKind g.BoundContract l.Log) where
  unfoldable pub filter :
      g.BoundContract → l.FilterOpts → List (List (Value g.Address)) → M g.Node (Result (It k))
  filter contract opts rules =
      l.filter_logs contract opts k.name rules
      >>= elim [ err e ↦ return (err e) | ok feed ↦ return (ok (iterator k contract feed)) ]

  unfoldable pub subscribe :
      g.BoundContract → l.WatchOpts → List (List (Value g.Address)) → M g.Node (Result (W k))
  subscribe contract opts rules =
      l.watch_logs contract opts k.name rules
      >>= elim [ err e ↦ return (err e) | ok feed ↦ return (ok (watching k contract feed)) ]
