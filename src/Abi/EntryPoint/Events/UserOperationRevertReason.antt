-- ===== src/Abi/EntryPoint/Events/UserOperationRevertReason.antt =====
-- The event `UserOperationRevertReason`, its iterator, filter and watcher: bundler/src/abi/entrypoint.go.
use pay_gas_x.Base.{ℕ, Bool, List, [], ◌∷◌, Option, none, Text, text, Result, M}
use pay_gas_x.Base.Int.{ℤ}
use pay_gas_x.Geth.{Geth}
use pay_gas_x.Abi.Types.{address, bytes_32, zero_bytes_32}
use pay_gas_x.Abi.EntryPoint.{EntryPointFilterer}
use pay_gas_x.Abi.Events as Events
use pay_gas_x.Abi.Events.{Logs, UnpackLog, EventKind, NextCase, WatchCase, It, W, rule}

pub record EntryPointUserOperationRevertReason (Address Log : Type 0) : Type 0 where
  pub request_id : List ℕ
  pub sender : Address
  pub nonce : Option ℤ
  pub revert_reason : List ℕ
  pub raw : Log

module _ (g : Geth) (l : Logs g) where
  abbrev new : EntryPointUserOperationRevertReason g.Address l.Log
  new = record {
    request_id = zero_bytes_32;
    sender = g.zero_address;
    nonce = none;
    revert_reason = [];
    raw = l.zero_log;
  }

  module _
      (unpack_log : UnpackLog g.BoundContract l.Log
        (EntryPointUserOperationRevertReason g.Address l.Log)) where
    abbrev pub kind : EventKind g.BoundContract l.Log
    kind = record {
      Event = EntryPointUserOperationRevertReason g.Address l.Log;
      name = text "UserOperationRevertReason";
      new = new;
      with_raw = λ log event. record event { raw = log };
      unpack_log = unpack_log;
    }

    -- `EntryPointUserOperationRevertReasonIterator` and its methods
    abbrev pub EventIterator : Type 0
    EventIterator = It kind

    unfoldable pub next : NextCase → EventIterator → Option (Bool × EventIterator)
    next = Events.next kind

    unfoldable pub error : EventIterator → Option Text
    error = Events.error kind

    unfoldable pub close : EventIterator → Option Text × EventIterator
    close = Events.close kind

    unfoldable pub filter :
        EntryPointFilterer g.BoundContract
        → l.FilterOpts
        → List (List ℕ)
        → List g.Address
        → M g.Node (Result EventIterator)
    filter f opts request_id sender =
        Events.filter g l kind f.contract opts (rule bytes_32 request_id ∷ rule address sender ∷ [])

    -- The start of `WatchUserOperationRevertReason`, and one case of the goroutine that it starts.
    unfoldable pub watch :
        EntryPointFilterer g.BoundContract
        → l.WatchOpts
        → List (List ℕ)
        → List g.Address
        → M g.Node (Result (W kind))
    watch f opts request_id sender =
        Events.subscribe g l kind f.contract opts
          (rule bytes_32 request_id ∷ rule address sender ∷ [])

    unfoldable pub watch_step : WatchCase → W kind → Option (W kind)
    watch_step = Events.watch kind

    unfoldable pub parse :
        EntryPointFilterer g.BoundContract
        → l.Log
        → Result (EntryPointUserOperationRevertReason g.Address l.Log)
    parse f = Events.parse kind f.contract
