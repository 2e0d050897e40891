-- ===== src/Server/Starts.antt =====
-- `main` of bundler/src/cmd/standalone/main.go and `init` of bundler/src/main.go.
use pay_gas_x.Base.{
  ap, ◌∙◌, sym, ◌≡◌, refl, inl, inr, none, some, Text, text, ok, Outcome, Outcome-cases, done,
  arith,
}
use mathlib.Core.Path.{subst}
use pay_gas_x.Geth.{Geth}
use pay_gas_x.Host.{Host, State}
use pay_gas_x.Config.Types.{Config}
use pay_gas_x.Config.Init.{init_from_file, init_from_aws_secret}
use pay_gas_x.Config.Init.Usable.{IsUsable, init_from_file-IsUsable}
use pay_gas_x.Config.Init.Secret.{Loads, init_from_aws_secret_iff}
use pay_gas_x.Eth as Eth
use pay_gas_x.Eth.Connect.{init_connects}
use pay_gas_x.Server.{init, standalone_main}

module _ (g : Geth) where
  -- The client is that of the server which the configuration names.
  pub record IsConnected (s : State g) : Type 0 where
    pub loaded : Config
    pub connection : g.Client
    pub config_is : s.config ≡ some loaded
    pub client_is : s.client ≡ some connection
    pub dialled : g.dial loaded.chain.rpc_server s.node ≡ ok connection

  init-IsConnected :
      (s t : State g)
      → s.client ≡ none
      → Eth.init g s ≡ (done tt, t)
      → IsConnected t × (t.config ≡ s.config)
  init-IsConnected s t n e =
      let (c, k, config_is, dialled, result, _) =
        init_connects g s n (ap (λ (p : Outcome (Unit {0}) × State g). p.0) e) in
      let q : record s { client = some k } ≡ t =
        ap (λ (p : Outcome (Unit {0}) × State g). p.1) (sym result ∙ e) in
      (
        subst IsConnected q (record {
          loaded = c;
          connection = k;
          config_is = config_is;
          client_is = refl;
          dialled = dialled;
        }),
        sym (ap (λ (u : State g). u.config) q),
      )

  module _ (h : Host) where
    file_client :
        (filename : Text) (s : State g) → (init_from_file g h filename s).1.client ≡ s.client
    unfolding init_from_file
    file_client filename s = ground arith

    -- Where the standalone program starts from nothing and `main` returns, its client is that of
    -- the configured server, and every getter of the configuration returns.
    pub standalone_main-IsConnected :
        (s t : State g)
        → s.config ≡ none
        → s.client ≡ none
        → standalone_main g h s ≡ (done tt, t)
        → IsConnected t × IsUsable g t.config
    unfolding standalone_main
    standalone_main-IsConnected s t n m e =
        let file = text "config/config.json" in
        elim (Outcome-cases (init_from_file g h file s).0) [
          | inl (_, a) ↦
              let u : State g = (init_from_file g h file s).1 in
              let b : Eth.init g u ≡ (done tt, t) = ground arith in
              let (c, same) = init-IsConnected u t (file_client file s ∙ m) b in
              (c, subst (IsUsable g) (sym same) (init_from_file-IsUsable g h file s n a))
          | inr other ↦ absurd (ground arith)
        ]

    -- Where the Lambda starts without a client and `init` returns, the secret was found and parsed
    -- to the configuration, and the client is that of the server it names.
    pub init-Loads :
        (s t : State g)
        → s.client ≡ none
        → init g h s ≡ (done tt, t)
        → (u : State g) × Loads g h s u × IsConnected t × (t.config ≡ u.config)
    unfolding init
    init-Loads s t m e = elim (Outcome-cases (init_from_aws_secret g h s).0) [
      | inl (_, a) ↦
          let u : State g = (init_from_aws_secret g h s).1 in
          let b : Eth.init g u ≡ (done tt, t) = ground arith in
          let l : Loads g h s u = (init_from_aws_secret_iff g h s u).0 (ground arith) in
          let n : u.client ≡ none = ap (λ (v : State g). v.client) l.stored ∙ m in
          let (c, same) = init-IsConnected u t n b in (u, l, c, same)
      | inr other ↦ absurd (ground arith)
    ]
