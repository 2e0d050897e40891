-- ===== src/Controller/Handlers/Calls/Loop.antt =====
-- The calls that the second loop of `HandleOps` in bundler/src/controller/main.go makes.
use mathlib.Core.Path.{subst}
use pay_gas_x.Base.{
  ℕ, ◌+◌, ◌≡◌, refl, ◌∙◌, ap, sym, ◌⊎◌, inl, inr, [], ◌∷◌, ◌++◌, map, none, Option, Outcome,
  Option-cases, Text, ◌≢◌, Outcome-cases, done, arith,
}
use pay_gas_x.Geth.{Geth}
use pay_gas_x.Host.{State}
use pay_gas_x.Abi.Types as Abi
use pay_gas_x.Eth as Eth
use pay_gas_x.Eth.Calls.{Runs, Runs-append, simulation, simulate-CallsOnce}
use pay_gas_x.Controller.Handlers.{AbiOps, simulate_ops}

module _ (g : Geth) where
  -- The simulations that the second loop makes, which are all if it passes.
  pub record Simulates (i : ℕ) (ops : AbiOps g) (s : State g) : Type 0 where
    pub before : AbiOps g
    pub after : AbiOps g
    pub split : ops ≡ before ++ after
    pub runs : Runs g s.node (map (simulation g) before) (simulate_ops g i ops s).1.node
    pub complete : (simulate_ops g i ops s).0 ≡ done none → before ≡ ops

  -- The first operation passes, or the loop ends with it.
  passes_or_ends :
      (op : Abi.UserOperation g.Address) (ops : AbiOps g) (i : ℕ) (s : State g)
      → ((Eth.simulate g op s).0 ≡ done none)
        ⊎ (((simulate_ops g i (op ∷ ops) s).1.node ≡ (Eth.simulate g op s).1.node)
            × ((simulate_ops g i (op ∷ ops) s).0 ≢ done none))
  unfolding simulate_ops
  passes_or_ends op ops i s = elim (Outcome-cases (Eth.simulate g op s).0) [
    | inl (r, e) ↦ elim (Option-cases r) [
      | inl f ↦ inl (e ∙ ap done f)
      | inr (m, f) ↦ inr (ground arith, λ h. ground arith)
    ]
    | inr other ↦ inr (ground arith, λ h. ground arith)
  ]

  passes :
      (op : Abi.UserOperation g.Address) (ops : AbiOps g) (i : ℕ) (s : State g)
      → (Eth.simulate g op s).0 ≡ done none
      → simulate_ops g (i + 1) ops (Eth.simulate g op s).1 ≡ simulate_ops g i (op ∷ ops) s
  unfolding simulate_ops
  passes op ops i s e = ground arith

  Simulates-rest :
      (op : Abi.UserOperation g.Address) (ops : AbiOps g) (i : ℕ) (s : State g)
      → (Eth.simulate g op s).0 ≡ done none
      → Runs g s.node (simulation g op ∷ []) (Eth.simulate g op s).1.node
      → Simulates (i + 1) ops (Eth.simulate g op s).1
      → Simulates i (op ∷ ops) s
  Simulates-rest op ops i s e r rest =
      let t : State g = (Eth.simulate g op s).1 in
      let same = passes op ops i s e in
      record {
        before = op ∷ rest.before;
        after = rest.after;
        split = ap (λ l. op ∷ l) rest.split;
        runs =
            subst
              (λ (x : Outcome (Option Text) × State g).
                Runs g s.node (map (simulation g) (op ∷ rest.before)) x.1.node)
              same
              (Runs-append g (simulation g op ∷ []) (map (simulation g) rest.before) s.node t.node
                (simulate_ops g (i + 1) ops t).1.node r rest.runs);
        complete = λ h.
            ap (λ l. op ∷ l)
              (rest.complete (ap (λ (x : Outcome (Option Text) × State g). x.0) same ∙ h));
      }

  pub simulate_ops-Simulates : (ops : AbiOps g) (i : ℕ) (s : State g) → Simulates i ops s
  unfolding simulate_ops
  simulate_ops-Simulates [] i s = record {
    before = [];
    after = [];
    split = refl;
    runs = refl;
    complete = λ _. refl;
  }
  simulate_ops-Simulates (op ∷ ops) i s = elim (passes_or_ends op ops i s) [
    | inl e ↦ elim (simulate-CallsOnce g op s) [
      | inl r ↦
          Simulates-rest op ops i s e r (simulate_ops-Simulates ops (i + 1) (Eth.simulate g op s).1)
      | inr (_, fails) ↦ absurd (fails e)
    ]
    | inr (same, fails) ↦ elim (simulate-CallsOnce g op s) [
      | inl r ↦ record {
        before = op ∷ [];
        after = ops;
        split = refl;
        runs = subst (λ m. Runs g s.node (simulation g op ∷ []) m) (sym same) r;
        complete = λ h. absurd (fails h);
      }
      | inr (keeps, _) ↦ record {
        before = [];
        after = op ∷ ops;
        split = refl;
        runs = same ∙ keeps;
        complete = λ h. absurd (fails h);
      }
    ]
  ]
