-- ===== src/Abi/EntryPoint/Events/UserOperationEvent.antt =====
-- The event `UserOperationEvent`, its iterator, filter and watcher: bundler/src/abi/entrypoint.go.
use pay_gas_x.Base.{ℕ, Bool, false, List, [], ◌∷◌, Option, none, Text, text, Result, M}
use pay_gas_x.Base.Int.{ℤ}
use pay_gas_x.Geth.{Geth}
use pay_gas_x.Abi.Types.{address, bytes_32, zero_bytes_32}
use pay_gas_x.Abi.EntryPoint.{EntryPointFilterer}
use pay_gas_x.Abi.Events as Events
use pay_gas_x.Abi.Events.{Logs, UnpackLog, EventKind, NextCase, WatchCase, It, W, rule}

pub record EntryPointUserOperationEvent (Address Log : Type 0) : Type 0 where
  pub request_id : List ℕ
  pub sender : Address
  pub paymaster : Address
  pub nonce : Option ℤ
  pub actual_gas_cost : Option ℤ
  pub actual_gas_price : Option ℤ
  pub success : Bool
  pub raw : Log

module _ (g : Geth) (l : Logs g) where
  abbrev new : EntryPointUserOperationEvent g.Address l.Log
  new = record {
    request_id = zero_bytes_32;
    sender = g.zero_address;
    paymaster = g.zero_address;
    nonce = none;
    actual_gas_cost = none;
    actual_gas_price = none;
    success = false;
    raw = l.zero_log;
  }

  module _
      (unpack_log : UnpackLog g.BoundContract l.Log
        (EntryPointUserOperationEvent g.Address l.Log)) where
    abbrev pub kind : EventKind g.BoundContract l.Log
    kind = record {
      Event = EntryPointUserOperationEvent g.Address l.Log;
      name = text "UserOperationEvent";
      new = new;
      with_raw = λ log event. record event { raw = log };
      unpack_log = unpack_log;
    }

    -- `EntryPointUserOperationEventIterator` and its methods
    abbrev pub EventIterator : Type 0
    EventIterator = It kind

    unfoldable pub next : NextCase → EventIterator → Option (Bool × EventIterator)
    next = Events.next kind

    unfoldable pub error : EventIterator → Option Text
    error = Events.error kind

    unfoldable pub close : EventIterator → Option Text × EventIterator
    close = Events.close kind

    unfoldable pub filter :
        EntryPointFilterer g.BoundContract
        → l.FilterOpts
        → List (List ℕ)
        → List g.Address
        → List g.Address
        → M g.Node (Result EventIterator)
    filter f opts request_id sender paymaster =
        Events.filter g l kind f.contract opts
          (rule bytes_32 request_id ∷ rule address sender ∷ rule address paymaster ∷ [])

    -- The start of `WatchUserOperationEvent`, and one case of the goroutine that it starts.
    unfoldable pub watch :
        EntryPointFilterer g.BoundContract
        → l.WatchOpts
        → List (List ℕ)
        → List g.Address
        → List g.Address
        → M g.Node (Result (W kind))
    watch f opts request_id sender paymaster =
        Events.subscribe g l kind f.contract opts
          (rule bytes_32 request_id ∷ rule address sender ∷ rule address paymaster ∷ [])

    unfoldable pub watch_step : WatchCase → W kind → Option (W kind)
    watch_step = Events.watch kind

    unfoldable pub parse :
        EntryPointFilterer g.BoundContract
        → l.Log
        → Result (EntryPointUserOperationEvent g.Address l.Log)
    parse f = Events.parse kind f.contract
