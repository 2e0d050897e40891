-- ===== src/Tests/Events.antt =====
-- The event `Deposited` over the small chain: a log is the account and what it deposits.
use pay_gas_x.Base.{
  ◌⊎◌, ◌↔◌, ◌≡◌, refl, true, false, ℕ, List, [], ◌∷◌, Option, none, some, Text, text, ok, done,
  arith,
}
use pay_gas_x.Base.Int.{pos}
use pay_gas_x.Abi.EntryPoint.Events.Deposited.{EntryPointDeposited, kind}
use pay_gas_x.Abi.Events.{
  Logs, Feed, EventKind, WatchCase, NextCase, log_case, err_case, It, iterator, next, in_progress,
  next_done, buffered, receive, parse, W, watching, waiting, sending, stopped, take_log, send_event,
  take_quit, watch, on_log, on_quit, stop,
}
use pay_gas_x.Abi.Events.Delivery.{AreParsed, IsDelivered}
use pay_gas_x.Abi.Events.Iteration as Iteration
use pay_gas_x.Abi.Events.Blocking.{next_blocks_iff}
use pay_gas_x.Abi.Events.Watching as Watching
use pay_gas_x.Abi.Events.Stopping.{Reason, stopped-HasReason, quit_stops}
use pay_gas_x.Abi.Events.Drain.{collect, IsReady, collect-AreParsed}
use pay_gas_x.Tests.Instances.{toy}

abbrev pub toy_logs : Logs toy
toy_logs = record {
  Log = Text;
  zero_log = [];
  FilterOpts = Unit;
  WatchOpts = Unit;
  filter_logs = λ c o name rules n.
      (done (ok (record { logs = []; sub = record { ended = none; is_unsubscribed = false } })), n);
  watch_logs = λ c o name rules n.
      (done (ok (record { logs = []; sub = record { ended = none; is_unsubscribed = false } })), n);
}

abbrev Deposit : Type 0
Deposit = EntryPointDeposited Text Text

abbrev unpack : Text → Text → Text → Deposit → Deposit × Option Text
unpack c name [] event = (event, some (text "no event signature"))
unpack c name (b ∷ log) event =
    (record event { account = b ∷ log; total_deposit = some (pos b) }, none)

abbrev deposited : EventKind Text Text
deposited = kind toy toy_logs unpack

abbrev deposit : Text → ℕ → Deposit
deposit log n = record { account = log; total_deposit = some (pos n); raw = log }

abbrev feed : Feed Text
feed = record {
  logs = text "a" ∷ text "b" ∷ [];
  sub = record { ended = none; is_unsubscribed = false };
}

abbrev at_start : It deposited
at_start = iterator deposited (text "0xe") feed

abbrev ended : It deposited
ended = record at_start { sub = record { ended = some none; is_unsubscribed = false } }

-- Both logs wait and the subscription has ended; the first call of `Next` reads of the end.
drains :
    collect deposited 3 (λ it. err_case) ended
    ≡ (deposit (text "a") 97 ∷ deposit (text "b") 98 ∷ [], true)
unfolding collect next in_progress next_done buffered receive
drains = refl

ending_first : IsReady deposited (λ it. err_case)
unfolding next in_progress
ending_first it h = ground arith

both_parse :
    AreParsed deposited
      (text "0xe")
      (text "a" ∷ text "b" ∷ [])
      (deposit (text "a") 97 ∷ deposit (text "b") 98 ∷ [])
unfolding parse
both_parse = (refl, (refl, tt))

collect-AreParsed_example :
    collect deposited 3 (λ it. err_case) ended
    ≡ (deposit (text "a") 97 ∷ deposit (text "b") 98 ∷ [], true)
collect-AreParsed_example =
    collect-AreParsed deposited (text "0xe") (λ it. err_case) ended
      (deposit (text "a") 97 ∷ deposit (text "b") 98 ∷ []) ending_first
      (record { contract_kept = refl; event_kept = refl; no_failure = refl; ended = refl })
      both_parse

-- The loop sees the first log, the subscription ends, and the loop sees the other.
abbrev seen_one : It deposited
seen_one = record at_start { event_value = some (deposit (text "a") 97); logs = text "b" ∷ [] }

abbrev seen_both : It deposited
seen_both = record seen_one {
  event_value = some (deposit (text "b") 98);
  logs = [];
  sub = record { ended = some none; is_unsubscribed = false };
  is_done = true;
}

abbrev read_both : Iteration.Run deposited
read_both = record {
  it = seen_both;
  seen = deposit (text "a") 97 ∷ deposit (text "b") 98 ∷ [];
  sent = text "a" ∷ text "b" ∷ [];
}

reads_both : Iteration.Reach deposited (text "0xe") feed read_both
unfolding next in_progress next_done buffered receive
reads_both =
    Iteration.then
      (Iteration.then
        (Iteration.then Iteration.here
          (Iteration.advance log_case seen_one (deposit (text "a") 97) refl refl))
        (Iteration.finish none refl))
      (Iteration.advance err_case seen_both (deposit (text "b") 98) refl refl)

complete_example : AreParsed deposited (text "0xe") read_both.sent read_both.seen
unfolding next buffered
complete_example =
    Iteration.complete deposited (text "0xe") feed log_case seen_both reads_both refl refl

-- The goroutine sends one event, the program unsubscribes, and the goroutine returns.
abbrev stopped_one : Watching.Run deposited
stopped_one = record {
  watcher = record {
    contract = text "0xe";
    logs = text "b" ∷ [];
    sub = record { ended = none; is_unsubscribed = true };
    quit = true;
    sink = deposit (text "a") 97 ∷ [];
    phase = stopped none;
  };
  sent = text "a" ∷ text "b" ∷ [];
}

abbrev sending_one : W deposited
sending_one = record (watching deposited (text "0xe") feed) {
  logs = text "b" ∷ [];
  phase = sending (deposit (text "a") 97);
}

abbrev sent_one : W deposited
sent_one = record sending_one { phase = waiting; sink = deposit (text "a") 97 ∷ [] }

stops_after_one : Watching.Reach deposited (text "0xe") feed stopped_one
unfolding watch on_log on_quit stop parse
stops_after_one =
    Watching.then
      (Watching.then
        (Watching.then (Watching.then Watching.here (Watching.take take_log sending_one refl))
          (Watching.take send_event sent_one refl))
        Watching.ask)
      (Watching.take take_quit stopped_one.watcher refl)

sink-IsDelivered_example :
    (rest : List Text) × IsDelivered deposited
      (text "0xe")
      stopped_one.sent
      rest
      stopped_one.watcher.sink
sink-IsDelivered_example = Watching.sink-IsDelivered deposited (text "0xe") feed stops_after_one

stopped-HasReason_example : (true ≡ true) × Reason deposited (text "0xe") true none none
stopped-HasReason_example = stopped-HasReason deposited (text "0xe") feed stops_after_one refl

-- The program unsubscribes while nobody reads the sink.
abbrev stuck : W deposited
stuck = record sending_one { quit = true }

quit_stops_example :
    ((e : Option Text) × (stuck.phase ≡ stopped e))
    ⊎ ((t : W deposited) × (watch deposited take_quit stuck ≡ some t)
        × (t.phase ≡ stopped none)
        × (t.sub.is_unsubscribed ≡ true)
        × (t.sink ≡ [])
        × ((c : WatchCase) → watch deposited c t ≡ none))
quit_stops_example = quit_stops deposited stuck refl

abbrev nothing_yet : It deposited
nothing_yet = record at_start { logs = [] }

next_blocks_iff_example : ((c : NextCase) → next deposited c nothing_yet ≡ none) ↔ (
    (nothing_yet.fail ≡ none)
    × (nothing_yet.is_done ≡ false)
    × (nothing_yet.logs ≡ [])
    × (nothing_yet.sub.ended ≡ none))
next_blocks_iff_example = next_blocks_iff deposited nothing_yet
