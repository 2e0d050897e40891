-- ===== src/Controller/Handlers/Parse.antt =====
-- The first loop of `HandleOps` in bundler/src/controller/main.go, against a description of it.
use mathlib.Core.Path.{subst}
use pay_gas_x.Base.{
  ℕ, ◌+◌, ◌≡◌, refl, ◌↔◌, ◌∙◌, ap, List, [], ◌∷◌, ◌++◌, length, Text, ok, err, Result-cases,
  Outcome-cases, done, inl, inr, suc, arith,
}
use pay_gas_x.Geth.{Geth}
use pay_gas_x.Abi.Types as Abi
use pay_gas_x.Controller.Types.{UserOperation}
use pay_gas_x.Controller.ToAbi.{to_abi_struct}
use pay_gas_x.Controller.Handlers.{parse_failed, parse_ops}

module _ (g : Geth) where
  -- The operations of the one list become those of the other, each at its place.
  abbrev pub Parsed : List UserOperation → List (Abi.UserOperation g.Address) → Type 0
  Parsed [] [] = Unit
  Parsed [] (_ ∷ _) = ⊥
  Parsed (_ ∷ _) [] = ⊥
  Parsed (uo ∷ uos) (op ∷ ops) = (to_abi_struct g uo ≡ done (ok op)) × Parsed uos ops

  parse_ops_of_Parsed :
      (i : ℕ) (uos : List UserOperation) (ops : List (Abi.UserOperation g.Address))
      → Parsed uos ops
      → parse_ops g i uos ≡ done (ok ops)
  unfolding parse_ops
  parse_ops_of_Parsed i [] [] h = refl
  parse_ops_of_Parsed i [] (_ ∷ _) h = absurd h
  parse_ops_of_Parsed i (_ ∷ _) [] h = absurd h
  parse_ops_of_Parsed i (uo ∷ uos) (op ∷ ops) (e, h) =
      ground (arith, e, parse_ops_of_Parsed (i + 1) uos ops h)

  Parsed_of_parse_ops :
      (i : ℕ) (uos : List UserOperation) (ops : List (Abi.UserOperation g.Address))
      → parse_ops g i uos ≡ done (ok ops)
      → Parsed uos ops
  unfolding parse_ops
  Parsed_of_parse_ops i [] [] h = tt
  Parsed_of_parse_ops i [] (_ ∷ _) h = cc
  Parsed_of_parse_ops i (uo ∷ uos) [] h = ground arith
  Parsed_of_parse_ops i (uo ∷ uos) (op ∷ ops) h =
      (ground arith, Parsed_of_parse_ops (i + 1) uos ops (ground arith))

  -- The loop gives a list exactly when every operation parses, and then it is the list of what
  -- they parse to, in their order.
  pub parse_ops_ok_iff :
      (i : ℕ) (uos : List UserOperation) (ops : List (Abi.UserOperation g.Address))
      → (parse_ops g i uos ≡ done (ok ops)) ↔ Parsed uos ops
  parse_ops_ok_iff i uos ops = (Parsed_of_parse_ops i uos ops, parse_ops_of_Parsed i uos ops)

  -- An operation of the list does not parse, with the error `e`, and all before it do.
  pub record FirstFailure (uos : List UserOperation) (k : ℕ) (e : Text) : Type 0 where
    pub before : List UserOperation
    pub bad : UserOperation
    pub after : List UserOperation
    pub parsed : List (Abi.UserOperation g.Address)
    pub split : uos ≡ before ++ bad ∷ after
    pub position : k ≡ length before
    pub before_parse : Parsed before parsed
    pub bad_fails : to_abi_struct g bad ≡ done (err e)

  FirstFailure-later :
      (uo : UserOperation) (op : Abi.UserOperation g.Address) (uos : List UserOperation) {k : ℕ}
      {e : Text}
      → to_abi_struct g uo ≡ done (ok op)
      → FirstFailure uos k e
      → FirstFailure (uo ∷ uos) (suc k) e
  FirstFailure-later uo op uos p f = record {
    before = uo ∷ f.before;
    bad = f.bad;
    after = f.after;
    parsed = op ∷ f.parsed;
    split = ap (λ l. uo ∷ l) f.split;
    position = ap suc f.position;
    before_parse = (p, f.before_parse);
    bad_fails = f.bad_fails;
  }

  -- The error `m` of the loop from index `i` on is that of the first operation that fails.
  abbrev NamesFirst : ℕ → List UserOperation → Text → Type 0
  NamesFirst i uos m = (k : ℕ) × (e : Text) × FirstFailure uos k e × (m ≡ parse_failed g (i + k) e)

  NamesFirst-now :
      (i : ℕ) (uo : UserOperation) (uos : List UserOperation) {e : Text}
      → to_abi_struct g uo ≡ done (err e)
      → NamesFirst i (uo ∷ uos) (parse_failed g i e)
  NamesFirst-now i uo uos {e} p = (
    0,
    e,
    record {
      before = [];
      bad = uo;
      after = uos;
      parsed = [];
      split = refl;
      position = refl;
      before_parse = tt;
      bad_fails = p;
    },
    ap (λ (j : ℕ). parse_failed g j e) (omega arith),
  )

  NamesFirst-later :
      (i : ℕ) (uo : UserOperation) (op : Abi.UserOperation g.Address) (uos : List UserOperation)
      {m : Text}
      → to_abi_struct g uo ≡ done (ok op)
      → NamesFirst (i + 1) uos m
      → NamesFirst i (uo ∷ uos) m
  NamesFirst-later i uo op uos p (k, e, f, n) = (
    suc k,
    e,
    FirstFailure-later uo op uos p f,
    n ∙ ap (λ (j : ℕ). parse_failed g j e) (omega arith),
  )

  NamesFirst-of_err :
      (i : ℕ) (uos : List UserOperation) {m : Text}
      → parse_ops g i uos ≡ done (err m)
      → NamesFirst i uos m
  unfolding parse_ops
  NamesFirst-of_err i [] h = cc
  NamesFirst-of_err i (uo ∷ uos) {m} h = elim (Outcome-cases (to_abi_struct g uo)) [
    | inl (r, p) ↦ elim (Result-cases r) [
      | inl (op, q) ↦
          NamesFirst-later i uo op uos (p ∙ ap done q)
            (NamesFirst-of_err (i + 1) uos {m = m} (ground arith))
      | inr (e, q) ↦
          let z : parse_failed g i e ≡ m = ground arith in
          subst (NamesFirst i (uo ∷ uos)) z (NamesFirst-now i uo uos (p ∙ ap done q))
    ]
    | inr other ↦ absurd (ground arith)
  ]

  -- An error of the loop tells of the first operation that does not parse: of its index, counted
  -- from 0, and of its error.
  pub parse_ops_names_first :
      (uos : List UserOperation) {m : Text}
      → parse_ops g 0 uos ≡ done (err m)
      → (k : ℕ) × (e : Text) × FirstFailure uos k e × (m ≡ parse_failed g k e)
  parse_ops_names_first uos h =
      let (k, e, f, n) = NamesFirst-of_err 0 uos h in
      (k, e, f, n ∙ ap (λ (j : ℕ). parse_failed g j e) (omega arith))
