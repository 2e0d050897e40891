-- ===== src/Abi/Signatures/Events.antt =====
-- The events that an ABI declares, and the filters of bundler/src/abi/entrypoint.go and erc20.go.
use pay_gas_x.Base.{
  ℕ, ◌≡◌, refl, ◌∙◌, ap, Bool, true, false, All, List, [], ◌∷◌, Option, none, some, Text, text,
  text_eq, Result, ok, err, M, if◌then◌else◌,
}
use pay_gas_x.GoLib.Json.{runes}
use pay_gas_x.GoLib.JsonValue.{Items, bool, no_items, item}
use pay_gas_x.GoLib.Scanner.{scan, run, at_eof, read_json}
use pay_gas_x.Geth.{Geth}
use pay_gas_x.Abi.Types.{Value, address, bytes_32}
use pay_gas_x.Abi.Events.{Logs, EventKind, It, W, rule, filter, subscribe}
use pay_gas_x.Abi.EntryPoint.Metadata.{entry_point_abi}
use pay_gas_x.Abi.Erc20.Metadata.{erc20_abi}
use pay_gas_x.Abi.Signatures.{get, get_text, items_of, param_type, value_type}

-- The types of the inputs that are indexed, or of those that are not.
abbrev inputs_of : Bool → Items → List Text
inputs_of is_indexed no_items = []
inputs_of is_indexed (item v items) =
    let rest = inputs_of is_indexed items in
    elim (get (text "indexed") v) [
      | bool true ↦ if is_indexed then param_type v ∷ rest else rest
      | _ ↦ if is_indexed then rest else param_type v ∷ rest
    ]

abbrev declared : Items → List (Text × (List Text × List Text))
declared no_items = []
declared (item v items) =
    let rest = declared items in
    let inputs = items_of (get (text "inputs") v) in
    if text_eq (get_text (text "type") v) (text "event")
    then (get_text (text "name") v, (inputs_of true inputs, inputs_of false inputs)) ∷ rest
    else rest

-- The declared events: names, and the types of their indexed and of their other inputs.
unfoldable pub events : Text → List (Text × (List Text × List Text))
events abi = elim (read_json abi) [ ok v ↦ declared (items_of v) | err e ↦ [] ]

abbrev pub inputs_among :
    List (Text × (List Text × List Text)) → Text → Option (List Text × List Text)
inputs_among [] name = none
inputs_among ((n, inputs) ∷ es) name =
    let rest = inputs_among es name in if text_eq name n then some inputs else rest

-- The rules of a filter have the types of the indexed inputs, in their order.
abbrev pub Fits : {A : Type 0} → List Text → List (List (Value A)) → Type 0
Fits [] [] = Unit
Fits (t ∷ ts) (r ∷ rs) = All (λ v. value_type v ≡ t) r × Fits ts rs
Fits _ _ = ⊥

rule-All :
    {A B : Type 0} (value : A → Value B) (t : Text) (items : List A)
    → ((a : A) → value_type (value a) ≡ t)
    → All (λ v. value_type v ≡ t) (rule value items)
rule-All value t [] h = tt
rule-All value t (a ∷ items) h = (h a, rule-All value t items h)

pub addresses :
    {A : Type 0} (items : List A) → All (λ v. value_type v ≡ text "address") (rule address items)
addresses items = rule-All address (text "address") items (λ _. refl)

pub bytes_32_values :
    (A : Type 0) (items : List (List ℕ))
    → All (λ v. value_type v ≡ text "bytes32") (rule {Address = A} bytes_32 items)
bytes_32_values A items = rule-All bytes_32 (text "bytes32") items (λ _. refl)

module _ (abi : Text) (g : Geth) (l : Logs g) (k : EventKind g.BoundContract l.Log) where
  -- The filter and the watcher of an event ask for an event that the ABI declares, by its name, with
  -- rules for its indexed inputs.
  pub record Asks (contract : g.BoundContract) (opts : l.FilterOpts) (watch_opts : l.WatchOpts)
      (filtered : M g.Node (Result (It k))) (watched : M g.Node (Result (W k))) : Type 0 where
    pub rules : List (List (Value g.Address))
    pub filters : filtered ≡ filter g l k contract opts rules
    pub watches : watched ≡ subscribe g l k contract watch_opts rules
    pub indexed : List Text
    pub others : List Text
    pub is_declared : inputs_among (events abi) k.name ≡ some (indexed, others)
    pub fits : Fits indexed rules

-- The filter and the watcher by rules that fit an event among those that the ABI declares.
pub asks :
    (abi : Text) {es : List (Text × (List Text × List Text))} (declared : events abi ≡ es)
    (g : Geth) (l : Logs g) (k : EventKind g.BoundContract l.Log) (contract : g.BoundContract)
    (opts : l.FilterOpts) (watch_opts : l.WatchOpts) (rules : List (List (Value g.Address)))
    {indexed others : List Text}
    → inputs_among es k.name ≡ some (indexed, others)
    → Fits indexed rules
    → Asks abi g l k contract opts watch_opts
        (filter g l k contract opts rules)
        (subscribe g l k contract watch_opts rules)
asks abi declared g l k contract opts watch_opts rules {indexed} {others} found fit = record {
  rules = rules;
  filters = refl;
  watches = refl;
  indexed = indexed;
  others = others;
  is_declared = ap (λ es. inputs_among es k.name) declared ∙ found;
  fits = fit;
}

abbrev pub entry_point_events : List (Text × (List Text × List Text))
entry_point_events =
    (text "Deposited", (text "address" ∷ [], text "uint256" ∷ []))
    ∷ (text "StakeLocked", (text "address" ∷ [], text "uint256" ∷ text "uint256" ∷ []))
    ∷ (text "StakeUnlocked", (text "address" ∷ [], text "uint256" ∷ []))
    ∷ (text "StakeWithdrawn", (text "address" ∷ [], text "address" ∷ text "uint256" ∷ []))
    ∷ (
      text "UserOperationEvent",
      (
        text "bytes32" ∷ text "address" ∷ text "address" ∷ [],
        text "uint256" ∷ text "uint256" ∷ text "uint256" ∷ text "bool" ∷ [],
      ),
    )
    ∷ (
      text "UserOperationRevertReason",
      (text "bytes32" ∷ text "address" ∷ [], text "uint256" ∷ text "bytes" ∷ []),
    )
    ∷ (text "Withdrawn", (text "address" ∷ [], text "address" ∷ text "uint256" ∷ []))
    ∷ []

pub entry_point_events_declared : events entry_point_abi ≡ entry_point_events
unfolding events read_json run scan at_eof runes entry_point_abi
entry_point_events_declared = refl

abbrev pub erc20_events : List (Text × (List Text × List Text))
erc20_events =
    (text "Approval", (text "address" ∷ text "address" ∷ [], text "uint256" ∷ []))
    ∷ (text "Transfer", (text "address" ∷ text "address" ∷ [], text "uint256" ∷ []))
    ∷ []

pub erc20_events_declared : events erc20_abi ≡ erc20_events
unfolding events read_json run scan at_eof runes erc20_abi
erc20_events_declared = refl
