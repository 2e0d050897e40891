-- ===== src/Abi/Events/Blocking.antt =====
-- When `Next` of an iterator waits, in bundler/src/abi/entrypoint.go and bundler/src/abi/erc20.go.
use pay_gas_x.Base.{◌≡◌, ◌↔◌, false, [], none, arith}
use pay_gas_x.Abi.Events.{
  EventKind, NextCase, log_case, err_case, It, receive, buffered, next_done, in_progress, next,
}

module _ {Contract Log : Type 0} (k : EventKind Contract Log) where
  -- `Next` waits exactly where the iterator is in progress, no log waits in the channel and the
  -- subscription has not ended; otherwise one of its cases can be taken.
  pub next_blocks_iff :
      (it : It k)
      → ((c : NextCase) → next k c it ≡ none)
        ↔ ((it.fail ≡ none) × (it.is_done ≡ false) × (it.logs ≡ []) × (it.sub.ended ≡ none))
  unfolding next in_progress next_done buffered receive
  next_blocks_iff it = (
    λ h.
        let a = h log_case in
        let b = h err_case in (ground arith, ground arith, ground arith, ground arith),
    λ (f, d, l, e) c. ground arith,
  )
