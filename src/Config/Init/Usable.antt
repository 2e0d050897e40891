-- ===== src/Config/Init/Usable.antt =====
-- What `InitFromFile` of bundler/src/config/main.go checks, and what the checks are good for.
use mathlib.Core.Path.{subst}
use pay_gas_x.Base.{
  ap, ◌∙◌, ◌≡◌, inl, inr, Option, none, some, Option-cases, Text, Result-cases, Outcome,
  Outcome-cases, done, arith,
}
use pay_gas_x.Base.Int.{ℤ}
use pay_gas_x.Geth.{Geth}
use pay_gas_x.Host.{Host, State}
use pay_gas_x.Config.Types.{Config}
use pay_gas_x.Config.Decode.{unmarshal_config}
use pay_gas_x.Config.Getters.{
  get_chain_id, get_bundler, get_bundler_address, get_entrypoint_contract_address,
}
use pay_gas_x.Config.Init.{report, load_file, init_from_file}

module _ (g : Geth) where
  -- Every getter of the package returns.
  pub record IsUsable (c : Option Config) : Type 0 where
    pub chain_id_parses : (id : ℤ) × (get_chain_id c ≡ done id)
    pub key_parses : (sk : g.PrivateKey) × (get_bundler g c ≡ done sk)
    pub has_entrypoint : (a : g.Address) × (get_entrypoint_contract_address g c ≡ done a)

  module _ (h : Host) where
    report-IsUsable :
        (s : State g)
        → (report g h s).0 ≡ done tt
        → IsUsable s.config × ((report g h s).1.config ≡ s.config)
    unfolding report get_bundler_address
    report-IsUsable s e = elim (Outcome-cases (get_chain_id s.config)) [
      | inl (id, a) ↦ elim (Outcome-cases (get_bundler g s.config)) [
        | inl (sk, b) ↦ elim (Outcome-cases (get_entrypoint_contract_address g s.config)) [
          | inl (addr, c) ↦ (
            record { chain_id_parses = (id, a); key_parses = (sk, b); has_entrypoint = (addr, c) },
            ground arith,
          )
          | inr other ↦ absurd (ground arith)
        ]
        | inr other ↦ absurd (ground arith)
      ]
      | inr other ↦ absurd (ground arith)
    ]

    load_file-IsUsable :
        (filename : Text) (s : State g)
        → (load_file g h filename s).0 ≡ done tt
        → IsUsable (load_file g h filename s).1.config
    unfolding load_file
    load_file-IsUsable filename s e = elim (Result-cases (h.read_file filename)) [
      | inl (content, a) ↦
          let s1 : State g = record s { config = (unmarshal_config content s.config).0 } in
          elim (Option-cases (unmarshal_config content s.config).1) [
            | inl b ↦
                let (u, k) = report-IsUsable s1 (ground arith) in
                let same : s1.config ≡ (load_file g h filename s).1.config = ground arith in
                subst IsUsable same u
            | inr (m, b) ↦ absurd (ground arith)
          ]
      | inr (m, a) ↦ absurd (ground arith)
    ]

    -- `InitFromFile` reads nothing and changes nothing where `C` is set.
    pub init_from_file_again :
        (filename : Text) (s : State g) {c : Config}
        → s.config ≡ some c
        → init_from_file g h filename s ≡ (done tt, s)
    unfolding init_from_file
    init_from_file_again filename s e = ground arith

    -- Where `C` is nil and `InitFromFile` returns, it has read the file, and every getter returns.
    pub init_from_file-IsUsable :
        (filename : Text) (s : State g)
        → s.config ≡ none
        → (init_from_file g h filename s).0 ≡ done tt
        → IsUsable (init_from_file g h filename s).1.config
    unfolding init_from_file
    init_from_file-IsUsable filename s n e =
        let same : load_file g h filename s ≡ init_from_file g h filename s = ground arith in
        subst (λ (p : Outcome (Unit {0}) × State g). IsUsable p.1.config) same
          (load_file-IsUsable filename s (ap (λ (p : Outcome (Unit {0}) × State g). p.0) same ∙ e))
