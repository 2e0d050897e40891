-- ===== src/Eth/Connect.antt =====
-- `Init` of bundler/src/eth/main.go.
use pay_gas_x.Base.{◌≡◌, inl, inr, none, some, Option-cases, ok, Result-cases, done, arith}
use pay_gas_x.Geth.{Geth}
use pay_gas_x.Host.{State}
use pay_gas_x.Config.Types.{Config}
use pay_gas_x.Eth.{init}

module _ (g : Geth) where
  -- `Init` dials the configured server once: where it returns from a state without a client, the
  -- server was reached and its client is kept, and a second call changes nothing.
  pub init_connects :
      (s : State g)
      → s.client ≡ none
      → (init g s).0 ≡ done tt
      → (c : Config) × (k : g.Client) × (s.config ≡ some c)
        × (g.dial c.chain.rpc_server s.node ≡ ok k)
        × (init g s ≡ (done tt, record s { client = some k }))
        × (init g (record s { client = some k }) ≡ (done tt, record s { client = some k }))
  unfolding init
  init_connects s n e = elim (Option-cases s.config) [
    | inl a ↦ absurd (ground arith)
    | inr (c, a) ↦ elim (Result-cases (g.dial c.chain.rpc_server s.node)) [
      | inl (k, b) ↦ (c, k, a, b, ground arith, ground arith)
      | inr (m, b) ↦ absurd (ground arith)
    ]
  ]
