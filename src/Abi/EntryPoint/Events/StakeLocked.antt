-- ===== src/Abi/EntryPoint/Events/StakeLocked.antt =====
-- The event `StakeLocked`, its iterator, filter and watcher: bundler/src/abi/entrypoint.go.
use pay_gas_x.Base.{Bool, List, [], ◌∷◌, Option, none, Text, text, Result, M}
use pay_gas_x.Base.Int.{ℤ}
use pay_gas_x.Geth.{Geth}
use pay_gas_x.Abi.Types.{address}
use pay_gas_x.Abi.EntryPoint.{EntryPointFilterer}
use pay_gas_x.Abi.Events as Events
use pay_gas_x.Abi.Events.{Logs, UnpackLog, EventKind, NextCase, WatchCase, It, W, rule}

pub record EntryPointStakeLocked (Address Log : Type 0) : Type 0 where
  pub account : Address
  pub total_staked : Option ℤ
  pub withdraw_time : Option ℤ
  pub raw : Log

module _ (g : Geth) (l : Logs g) where
  abbrev new : EntryPointStakeLocked g.Address l.Log
  new = record {
    account = g.zero_address;
    total_staked = none;
    withdraw_time = none;
    raw = l.zero_log;
  }

  module _
      (unpack_log : UnpackLog g.BoundContract l.Log (EntryPointStakeLocked g.Address l.Log)) where
    abbrev pub kind : EventKind g.BoundContract l.Log
    kind = record {
      Event = EntryPointStakeLocked g.Address l.Log;
      name = text "StakeLocked";
      new = new;
      with_raw = λ log event. record event { raw = log };
      unpack_log = unpack_log;
    }

    -- `EntryPointStakeLockedIterator` and its methods
    abbrev pub EventIterator : Type 0
    EventIterator = It kind

    unfoldable pub next : NextCase → EventIterator → Option (Bool × EventIterator)
    next = Events.next kind

    unfoldable pub error : EventIterator → Option Text
    error = Events.error kind

    unfoldable pub close : EventIterator → Option Text × EventIterator
    close = Events.close kind

    unfoldable pub filter :
        EntryPointFilterer g.BoundContract
        → l.FilterOpts
        → List g.Address
        → M g.Node (Result EventIterator)
    filter f opts account = Events.filter g l kind f.contract opts (rule address account ∷ [])

    -- The start of `WatchStakeLocked`, and one case of the goroutine that it starts.
    unfoldable pub watch :
        EntryPointFilterer g.BoundContract
        → l.WatchOpts
        → List g.Address
        → M g.Node (Result (W kind))
    watch f opts account = Events.subscribe g l kind f.contract opts (rule address account ∷ [])

    unfoldable pub watch_step : WatchCase → W kind → Option (W kind)
    watch_step = Events.watch kind

    unfoldable pub parse :
        EntryPointFilterer g.BoundContract → l.Log → Result (EntryPointStakeLocked g.Address l.Log)
    parse f = Events.parse kind f.contract
