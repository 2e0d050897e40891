-- ===== src/Abi/EntryPoint/Caller/Outputs.antt =====
-- What `Deposits` of bundler/src/abi/entrypoint.go makes of the outputs of its call.
use pay_gas_x.Base.{
  ℕ, ◌≡◌, ◌↔◌, inl, inr, List, none, some, Option-cases, ok, Outcome, Outcome-cases, Result-cases,
  done, text, arith, ◌∷◌, [],
}
use pay_gas_x.Geth.{Geth}
use pay_gas_x.Abi.Types.{StakeManagerDepositInfo, address}
use pay_gas_x.Abi.Calls.{Calls, get, index, output}
use pay_gas_x.Abi.EntryPoint.{EntryPointCaller}
use pay_gas_x.Abi.EntryPoint.Caller.{deposits_returned, deposits}

module _ {Any : Type 0} where
  -- The output of that index is there and converts to the value.
  abbrev pub IsOutput : {A : Type 0} → ℕ → (Any → Outcome A) → List Any → A → Type 0
  IsOutput i convert out a = (v : Any) × (get out i ≡ some v) × (convert v ≡ done a)

  output-IsOutput :
      {A : Type 0} (i : ℕ) (convert : Any → Outcome A) (out : List Any) (a : A)
      → output i convert out ≡ done a
      → IsOutput i convert out a
  unfolding output index
  output-IsOutput i convert out a h = elim (Option-cases (get out i)) [
    | inl e ↦ absurd (ground arith)
    | inr (v, e) ↦ (v, e, ground arith)
  ]

  output_of_IsOutput :
      {A : Type 0} (i : ℕ) (convert : Any → Outcome A) (out : List Any) (a : A)
      → IsOutput i convert out a
      → output i convert out ≡ done a
  unfolding output index
  output_of_IsOutput i convert out a (v, e, h) = ground arith

module _ (g : Geth) (b : Calls g) where
  -- The outputs are the fields of the struct, in their order.
  pub record AreOutputs (out : List b.Any) (d : StakeManagerDepositInfo) : Type 0 where
    pub deposit : IsOutput 0 b.to_big_int out d.deposit
    pub staked : IsOutput 1 b.to_bool out d.staked
    pub stake : IsOutput 2 b.to_big_int out d.stake
    pub unstake_delay_sec : IsOutput 3 b.to_uint_32 out d.unstake_delay_sec
    pub withdraw_time : IsOutput 4 b.to_uint_64 out d.withdraw_time

  module _ (c : EntryPointCaller g.BoundContract) where
    AreOutputs-of_returned :
        (out : List b.Any) (d : StakeManagerDepositInfo)
        → deposits_returned g b c (ok out) ≡ done (d, none)
        → AreOutputs out d
    unfolding deposits_returned
    AreOutputs-of_returned out d h = elim (Outcome-cases (output 0 b.to_big_int out)) [
      | inr other ↦ absurd (ground arith)
      | inl (x0, e0) ↦ elim (Outcome-cases (output 1 b.to_bool out)) [
        | inr other ↦ absurd (ground arith)
        | inl (x1, e1) ↦ elim (Outcome-cases (output 2 b.to_big_int out)) [
          | inr other ↦ absurd (ground arith)
          | inl (x2, e2) ↦ elim (Outcome-cases (output 3 b.to_uint_32 out)) [
            | inr other ↦ absurd (ground arith)
            | inl (x3, e3) ↦ elim (Outcome-cases (output 4 b.to_uint_64 out)) [
              | inr other ↦ absurd (ground arith)
              | inl (x4, e4) ↦ record {
                deposit = output-IsOutput 0 b.to_big_int out d.deposit (ground arith);
                staked = output-IsOutput 1 b.to_bool out d.staked (ground arith);
                stake = output-IsOutput 2 b.to_big_int out d.stake (ground arith);
                unstake_delay_sec =
                    output-IsOutput 3 b.to_uint_32 out d.unstake_delay_sec (ground arith);
                withdraw_time = output-IsOutput 4 b.to_uint_64 out d.withdraw_time (ground arith);
              }
            ]
          ]
        ]
      ]
    ]

    returned_of_AreOutputs :
        (out : List b.Any) (d : StakeManagerDepositInfo)
        → AreOutputs out d
        → deposits_returned g b c (ok out) ≡ done (d, none)
    unfolding deposits_returned
    returned_of_AreOutputs out d a =
        let e0 = output_of_IsOutput 0 b.to_big_int out d.deposit a.deposit in
        let e1 = output_of_IsOutput 1 b.to_bool out d.staked a.staked in
        let e2 = output_of_IsOutput 2 b.to_big_int out d.stake a.stake in
        let e3 = output_of_IsOutput 3 b.to_uint_32 out d.unstake_delay_sec a.unstake_delay_sec in
        let e4 = output_of_IsOutput 4 b.to_uint_64 out d.withdraw_time a.withdraw_time in
        ground arith

    -- `Deposits` returns a struct without an error exactly where the call returned, its first five
    -- outputs are there, and each converts to the field of its place.
    pub deposits_iff :
        (opts : b.CallOpts) (account : g.Address) (s t : g.Node) (d : StakeManagerDepositInfo)
        → (deposits g b c opts account s ≡ (done (d, none), t)) ↔ (
            (out : List b.Any) × (b.call c.contract opts (text "deposits") (address account ∷ []) s
              ≡ (done (ok out), t))
            × AreOutputs out d)
    unfolding deposits
    deposits_iff opts account s t d =
        let answer = b.call c.contract opts (text "deposits") (address account ∷ []) s in
        (
          λ h. elim (Outcome-cases answer.0) [
            | inl (r, e) ↦ elim (Result-cases r) [
              | inl (out, f) ↦ (out, ground arith, AreOutputs-of_returned out d (ground arith))
              | inr (m, f) ↦ absurd (unfold deposits_returned in ground arith)
            ]
            | inr other ↦ absurd (ground arith)
          ],
          λ (out, e, a). let r = returned_of_AreOutputs out d a in ground arith,
        )
