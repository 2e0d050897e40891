-- ===== src/Config/Init/Secret.antt =====
-- How `InitFromAWSSecret` of bundler/src/config/main.go ends.
use pay_gas_x.Base.{
  ◌≡◌, ◌↔◌, ◌⊎◌, inl, inr, none, some, Option-cases, Text, text, ok, Result-cases, done, exited,
  arith,
}
use pay_gas_x.Geth.{Geth}
use pay_gas_x.Host.{Host, State}
use pay_gas_x.Config.Decode.{unmarshal_config}
use pay_gas_x.Config.Init.{init_from_aws_secret}

module _ (g : Geth) (h : Host) where
  -- The secret that the environment names is there, has a string, and parses to the new
  -- configuration.
  pub record Loads (s t : State g) : Type 0 where
    pub name : Text
    pub sdk : h.AwsConfig
    pub secret : Text
    pub named : h.lookup_env (text "SECRET_NAME") ≡ some name
    pub sdk_loads : h.load_default_config ≡ ok sdk
    pub secret_found : h.get_secret_value sdk name (text "AWSCURRENT") ≡ ok (some secret)
    pub parses : (unmarshal_config secret s.config).1 ≡ none
    pub stored : t ≡ record s { config = (unmarshal_config secret s.config).0 }

  Loads-of_done : (s t : State g) → init_from_aws_secret g h s ≡ (done tt, t) → Loads s t
  unfolding init_from_aws_secret
  Loads-of_done s t e = elim (Option-cases (h.lookup_env (text "SECRET_NAME"))) [
    | inl a ↦ absurd (ground arith)
    | inr (name, a) ↦ elim (Result-cases h.load_default_config) [
      | inr (m, b) ↦ absurd (ground arith)
      | inl (sdk, b) ↦ elim (Result-cases (h.get_secret_value sdk name (text "AWSCURRENT"))) [
        | inr (m, c) ↦ absurd (ground arith)
        | inl (none, c) ↦ absurd (ground arith)
        | inl (some secret, c) ↦ elim (Option-cases (unmarshal_config secret s.config).1) [
          | inr (m, d) ↦ absurd (ground arith)
          | inl d ↦ record {
            name = name;
            sdk = sdk;
            secret = secret;
            named = a;
            sdk_loads = b;
            secret_found = c;
            parses = d;
            stored = ground arith;
          }
        ]
      ]
    ]
  ]

  done_of_Loads : (s t : State g) → Loads s t → init_from_aws_secret g h s ≡ (done tt, t)
  unfolding init_from_aws_secret
  done_of_Loads s t l = ground (arith, l.named, l.sdk_loads, l.secret_found, l.parses, l.stored)

  -- The call returns exactly where the secret is found and parses, with what it parses to as the
  -- configuration and all else as it was. Its values are not looked at.
  pub init_from_aws_secret_iff :
      (s t : State g) → (init_from_aws_secret g h s ≡ (done tt, t)) ↔ Loads s t
  init_from_aws_secret_iff s t = (Loads-of_done s t, done_of_Loads s t)

  -- Where it does not return, it ends the process: it never panics.
  pub init_from_aws_secret_ends :
      (s : State g)
      → ((init_from_aws_secret g h s).0 ≡ done tt)
        ⊎ ((m : Text) × ((init_from_aws_secret g h s).0 ≡ exited m))
  unfolding init_from_aws_secret
  init_from_aws_secret_ends s = ground arith
