-- ===== src/Abi/Erc20/Events/Approval.antt =====
-- The event `Approval`, its iterator, filter and watcher: bundler/src/abi/erc20.go.
use pay_gas_x.Base.{Bool, List, [], ◌∷◌, Option, none, Text, text, Result, M}
use pay_gas_x.Base.Int.{ℤ}
use pay_gas_x.Geth.{Geth}
use pay_gas_x.Abi.Types.{address}
use pay_gas_x.Abi.Erc20.{Erc20Filterer}
use pay_gas_x.Abi.Events as Events
use pay_gas_x.Abi.Events.{Logs, UnpackLog, EventKind, NextCase, WatchCase, It, W, rule}

pub record Erc20Approval (Address Log : Type 0) : Type 0 where
  pub owner : Address
  pub spender : Address
  pub value : Option ℤ
  pub raw : Log

module _ (g : Geth) (l : Logs g) where
  abbrev new : Erc20Approval g.Address l.Log
  new = record { owner = g.zero_address; spender = g.zero_address; value = none; raw = l.zero_log }

  module _ (unpack_log : UnpackLog g.BoundContract l.Log (Erc20Approval g.Address l.Log)) where
    abbrev pub kind : EventKind g.BoundContract l.Log
    kind = record {
      Event = Erc20Approval g.Address l.Log;
      name = text "Approval";
      new = new;
      with_raw = λ log event. record event { raw = log };
      unpack_log = unpack_log;
    }

    -- `Erc20ApprovalIterator` and its methods
    abbrev pub EventIterator : Type 0
    EventIterator = It kind

    unfoldable pub next : NextCase → EventIterator → Option (Bool × EventIterator)
    next = Events.next kind

    unfoldable pub error : EventIterator → Option Text
    error = Events.error kind

    unfoldable pub close : EventIterator → Option Text × EventIterator
    close = Events.close kind

    unfoldable pub filter :
        Erc20Filterer g.BoundContract
        → l.FilterOpts
        → List g.Address
        → List g.Address
        → M g.Node (Result EventIterator)
    filter f opts owner spender =
        Events.filter g l kind f.contract opts (rule address owner ∷ rule address spender ∷ [])

    -- The start of `WatchApproval`, and one case of the goroutine that it starts.
    unfoldable pub watch :
        Erc20Filterer g.BoundContract
        → l.WatchOpts
        → List g.Address
        → List g.Address
        → M g.Node (Result (W kind))
    watch f opts owner spender =
        Events.subscribe g l kind f.contract opts (rule address owner ∷ rule address spender ∷ [])

    unfoldable pub watch_step : WatchCase → W kind → Option (W kind)
    watch_step = Events.watch kind

    unfoldable pub parse :
        Erc20Filterer g.BoundContract → l.Log → Result (Erc20Approval g.Address l.Log)
    parse f = Events.parse kind f.contract
