-- ===== src/Config/Init.antt =====
-- `InitFromFile` and `InitFromAWSSecret` of bundler/src/config/main.go.
pub mod Usable
pub mod Secret
pub mod Written
pub mod Cut
use pay_gas_x.Base.{
  ◌++◌, [], ◌∷◌, Option, none, some, Text, text, ok, err, Outcome, done, panicked, exited, M,
  return, panic, fatal, reads, ◌>>=◌, ◌>>◌,
}
use pay_gas_x.Geth.{Geth}
use pay_gas_x.Host.{Host, State}
use pay_gas_x.Config.Types.{Config}
use pay_gas_x.Config.Decode.{unmarshal_config}
use pay_gas_x.Config.Getters.{
  get_chain_id, get_bundler, get_bundler_address, get_entrypoint_contract_address,
}

module _ (g : Geth) (h : Host) where
  abbrev print : Text → M (State g) (Unit {0})
  print line s = (done tt, record s { log = s.log ++ line ∷ [] })

  -- `json.Unmarshal(content, &C)`, which stores its result and returns its error.
  abbrev unmarshal : Text → M (State g) (Option Text)
  unmarshal content s =
      let (c, e) = unmarshal_config content s.config in (done e, record s { config = c })

  abbrev check_parsed : (Text → M (State g) (Unit {0})) → Option Text → M (State g) (Unit {0})
  check_parsed fail none = return tt
  check_parsed fail (some e) = fail e

  -- The two checks and the two lines that are printed.
  report : M (State g) (Unit {0})
  report = do
    _ ← reads (λ s. get_chain_id s.config)
    _ ← reads (λ s. get_bundler g s.config)
    bundler ← reads (λ s. get_bundler_address g s.config)
    print (text "Bundler EOA address: " ++ g.address_hex bundler)
    entrypoint ← reads (λ s. get_entrypoint_contract_address g s.config)
    print (text "Entrypoint contract address: " ++ g.address_hex entrypoint)

  -- `InitFromFile` where `C` is nil.
  load_file : Text → M (State g) (Unit {0})
  unfolding report
  load_file filename = elim (h.read_file filename) [
    | err e ↦ panic (text "Error reading config file: " ++ e)
    | ok content ↦ do
      e ← unmarshal content
      check_parsed (λ e. panic (text "Error parsing config file: " ++ e)) e
      report
  ]

  unfoldable pub init_from_file : Text → M (State g) (Unit {0})
  unfolding load_file
  init_from_file filename s = elim s.config [ some _ ↦ (done tt, s) | none ↦ load_file filename s ]

  -- The part of `InitFromAWSSecret` that follows the call of `GetSecretValue`.
  store_secret : Option Text → M (State g) (Unit {0})
  store_secret none = fatal (text "cannot get secret string")
  store_secret (some secret_string) = do
    e ← unmarshal secret_string
    check_parsed (λ e. fatal (text "Error during parsing config JSON: " ++ e)) e

  fetch_secret : Text → M (State g) (Unit {0})
  unfolding store_secret
  fetch_secret secret_name = elim h.load_default_config [
    | err e ↦ fatal (text "Unable to load SDK config: " ++ e)
    | ok cfg ↦ elim (h.get_secret_value cfg secret_name (text "AWSCURRENT")) [
      | err e ↦ fatal (text "Error when fetching secret: " ++ e)
      | ok secret ↦ store_secret secret
    ]
  ]

  unfoldable pub init_from_aws_secret : M (State g) (Unit {0})
  unfolding fetch_secret
  init_from_aws_secret = elim (h.lookup_env (text "SECRET_NAME")) [
    | none ↦ fatal (text "SECRET_NAME is not set")
    | some secret_name ↦ fetch_secret secret_name
  ]
