-- ===== src/Controller/Handlers/Simulation.antt =====
-- The second loop of `HandleOps` in bundler/src/controller/main.go, as a chain of simulations.
use mathlib.Core.Path.{subst}
use pay_gas_x.Base.{
  ℕ, ◌+◌, ◌≡◌, refl, ◌↔◌, ◌∙◌, ap, inl, inr, [], ◌∷◌, ◌++◌, length, none, some, Text, Outcome-cases,
  Option-cases, done, suc, arith,
}
use pay_gas_x.Geth.{Geth}
use pay_gas_x.Host.{State}
use pay_gas_x.Abi.Types as Abi
use pay_gas_x.Eth.{simulate}
use pay_gas_x.Controller.Handlers.{AbiOps, simulation_failed, simulate_ops}

module _ (g : Geth) where
  -- Each operation is simulated without an error, one after the other, from the state `s` to `t`.
  abbrev pub Simulated : State g → AbiOps g → State g → Type 0
  Simulated s [] t = t ≡ s
  Simulated s (op ∷ ops) t = ((simulate g op s).0 ≡ done none) × Simulated (simulate g op s).1 ops t

  simulate_ops_of_Simulated :
      (i : ℕ) (ops : AbiOps g) (s t : State g)
      → Simulated s ops t
      → simulate_ops g i ops s ≡ (done none, t)
  unfolding simulate_ops
  simulate_ops_of_Simulated i [] s t h = ground arith
  simulate_ops_of_Simulated i (op ∷ ops) s t (e, h) =
      ground (arith, e, simulate_ops_of_Simulated (i + 1) ops (simulate g op s).1 t h)

  Simulated_of_simulate_ops :
      (i : ℕ) (ops : AbiOps g) (s t : State g)
      → simulate_ops g i ops s ≡ (done none, t)
      → Simulated s ops t
  unfolding simulate_ops
  Simulated_of_simulate_ops i [] s t h = ground arith
  Simulated_of_simulate_ops i (op ∷ ops) s t h =
      (ground arith, Simulated_of_simulate_ops (i + 1) ops (simulate g op s).1 t (ground arith))

  -- The loop ends without an error exactly when every operation passes its simulation, in order.
  pub simulate_ops-none_iff :
      (i : ℕ) (ops : AbiOps g) (s t : State g)
      → (simulate_ops g i ops s ≡ (done none, t)) ↔ Simulated s ops t
  simulate_ops-none_iff i ops s t =
      (Simulated_of_simulate_ops i ops s t, simulate_ops_of_Simulated i ops s t)

  -- The operation after the first `k` is the first that fails its simulation, with the error `e`.
  pub record FirstRejected (s : State g) (ops : AbiOps g) (k : ℕ) (e : Text) (t : State g)
      : Type 0 where
    pub before : AbiOps g
    pub bad : Abi.UserOperation g.Address
    pub after : AbiOps g
    pub reached : State g
    pub split : ops ≡ before ++ bad ∷ after
    pub position : k ≡ length before
    pub before_pass : Simulated s before reached
    pub bad_fails : simulate g bad reached ≡ (done (some e), t)

  abbrev NamesRejected : ℕ → State g → AbiOps g → Text → State g → Type 0
  NamesRejected i s ops m t =
      (k : ℕ) × (e : Text) × FirstRejected s ops k e t × (m ≡ simulation_failed g (i + k) e)

  NamesRejected-now :
      (i : ℕ) (op : Abi.UserOperation g.Address) (ops : AbiOps g) (s t : State g) {e : Text}
      → simulate g op s ≡ (done (some e), t)
      → NamesRejected i s (op ∷ ops) (simulation_failed g i e) t
  NamesRejected-now i op ops s t {e} p = (
    0,
    e,
    record {
      before = [];
      bad = op;
      after = ops;
      reached = s;
      split = refl;
      position = refl;
      before_pass = refl;
      bad_fails = p;
    },
    ap (λ (j : ℕ). simulation_failed g j e) (omega arith),
  )

  NamesRejected-later :
      (i : ℕ) (op : Abi.UserOperation g.Address) (ops : AbiOps g) (s t : State g) {m : Text}
      → (simulate g op s).0 ≡ done none
      → NamesRejected (i + 1) (simulate g op s).1 ops m t
      → NamesRejected i s (op ∷ ops) m t
  NamesRejected-later i op ops s t p (k, e, f, n) = (
    suc k,
    e,
    record {
      before = op ∷ f.before;
      bad = f.bad;
      after = f.after;
      reached = f.reached;
      split = ap (λ l. op ∷ l) f.split;
      position = ap suc f.position;
      before_pass = (p, f.before_pass);
      bad_fails = f.bad_fails;
    },
    n ∙ ap (λ (j : ℕ). simulation_failed g j e) (omega arith),
  )

  NamesRejected-of_some :
      (i : ℕ) (ops : AbiOps g) (s t : State g) {m : Text}
      → simulate_ops g i ops s ≡ (done (some m), t)
      → NamesRejected i s ops m t
  unfolding simulate_ops
  NamesRejected-of_some i [] s t h = ground arith
  NamesRejected-of_some i (op ∷ ops) s t {m} h = elim (Outcome-cases (simulate g op s).0) [
    | inl (r, p) ↦ elim (Option-cases r) [
      | inl q ↦
          NamesRejected-later i op ops s t (p ∙ ap done q)
            (NamesRejected-of_some (i + 1) ops (simulate g op s).1 t {m = m} (ground arith))
      | inr (e, q) ↦
          let z : simulation_failed g i e ≡ m = ground arith in
          subst (λ (n : Text). NamesRejected i s (op ∷ ops) n t) z
            (NamesRejected-now i op ops s t {e = e} (ground arith))
    ]
    | inr other ↦ absurd (ground arith)
  ]

  -- An error of the loop tells of the first operation that fails its simulation: of its index,
  -- counted from 0, and of its error. No later operation is simulated.
  pub simulate_ops_names_first :
      (ops : AbiOps g) (s t : State g) {m : Text}
      → simulate_ops g 0 ops s ≡ (done (some m), t)
      → (k : ℕ) × (e : Text) × FirstRejected s ops k e t × (m ≡ simulation_failed g k e)
  simulate_ops_names_first ops s t h =
      let (k, e, f, n) = NamesRejected-of_some 0 ops s t h in
      (k, e, f, n ∙ ap (λ (j : ℕ). simulation_failed g j e) (omega arith))
