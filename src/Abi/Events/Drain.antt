-- ===== src/Abi/Events/Drain.antt =====
-- The loop `for it.Next() { ... it.Event ... }` over an iterator of bundler/src/abi/entrypoint.go or
-- bundler/src/abi/erc20.go whose subscription has ended, run to its end.
use pay_gas_x.Base.{
  ℕ, zero, suc, ◌≡◌, ◌≢◌, refl, ◌∙◌, ap, Bool, true, false, List, [], ◌∷◌, none, some, Option-cases,
  inl, inr, length, ok, arith,
}
use pay_gas_x.Abi.Events.{
  EventKind, NextCase, It, parse, receive, buffered, next_done, in_progress, next,
}
use pay_gas_x.Abi.Events.Iteration.{next-Kept}
use pay_gas_x.Abi.Events.Delivery.{AreParsed}

module _ {Contract Log : Type 0} (k : EventKind Contract Log) where
  -- What the loop sees in at most so many calls of `Next`, whose cases `pick` chooses, and whether
  -- it has ended.
  unfoldable pub collect : ℕ → (It k → NextCase) → It k → List k.Event × Bool
  collect zero pick it = ([], false)
  collect (suc n) pick it = elim (next k (pick it) it) [
    | none ↦ ([], false)
    | some (b, t) ↦ elim b [
      | false ↦ ([], true)
      | true ↦ elim t.event_value [
        | none ↦ ([], false)
        | some event ↦ let (events, ended) = collect n pick t in (event ∷ events, ended)
      ]
    ]
  ]

  -- A choice of the case is one that `select` can take once the subscription has ended.
  abbrev pub IsReady : (It k → NextCase) → Type 0
  IsReady pick = (it : It k) → it.sub.ended ≡ some none → next k (pick it) it ≢ none

  -- An iterator of this event that has not failed, and whose subscription ended without an error.
  pub record HasEnded (contract : Contract) (it : It k) : Type 0 where
    pub contract_kept : it.contract ≡ contract
    pub event_kept : it.event ≡ k.name
    pub no_failure : it.fail ≡ none
    pub ended : it.sub.ended ≡ some none

  next_takes :
      (contract : Contract) (c : NextCase) (it : It k) (log : Log) (rest : List Log)
      (event : k.Event)
      → HasEnded contract it
      → next k c it ≢ none
      → it.logs ≡ log ∷ rest
      → parse k contract log ≡ ok event
      → (t : It k) × (next k c it ≡ some (true, t))
        × (t.event_value ≡ some event)
        × (t.logs ≡ rest)
        × HasEnded contract t
  unfolding next next_done in_progress buffered receive parse
  next_takes contract c it log rest event h r l e =
      let p : k.unpack_log it.contract it.event log k.new ≡ k.unpack_log contract k.name log k.new =
        ap (λ v. k.unpack_log v it.event log k.new) h.contract_kept
        ∙ ap (λ v. k.unpack_log contract v log k.new) h.event_kept in
      let waits = h.no_failure in
      let ended = h.ended in
      elim (Option-cases (next k c it)) [
        | inl none_found ↦ absurd (r none_found)
        | inr ((b, t), found) ↦ (
          t,
          ground arith,
          ground arith,
          ground arith,
          record {
            contract_kept = (next-Kept k c it t b found).contract ∙ h.contract_kept;
            event_kept = (next-Kept k c it t b found).event ∙ h.event_kept;
            no_failure = ground arith;
            ended = ap (λ s. s.ended) (next-Kept k c it t b found).sub ∙ h.ended;
          },
        )
      ]

  next_ends :
      (contract : Contract) (c : NextCase) (it : It k)
      → HasEnded contract it
      → next k c it ≢ none
      → it.logs ≡ []
      → (t : It k) × (next k c it ≡ some (false, t))
  unfolding next next_done in_progress buffered
  next_ends contract c it h r l =
      let waits = h.no_failure in
      let ended = h.ended in
      elim (Option-cases (next k c it)) [
        | inl none_found ↦ absurd (r none_found)
        | inr ((b, t), found) ↦ (t, ground arith)
      ]

  collect_all :
      (contract : Contract) (pick : It k → NextCase) (logs : List Log) (events : List k.Event)
      (it : It k)
      → IsReady pick
      → HasEnded contract it
      → it.logs ≡ logs
      → AreParsed k contract logs events
      → collect (suc (length logs)) pick it ≡ (events, true)
  unfolding collect
  collect_all contract pick [] [] it r h l p =
      let (t, e) = next_ends contract (pick it) it h (r it h.ended) l in ground arith
  collect_all contract pick [] (_ ∷ _) it r h l p = absurd p
  collect_all contract pick (_ ∷ _) [] it r h l p = absurd p
  collect_all contract pick (log ∷ logs) (event ∷ events) it r h l (e, p) =
      let (t, q, v, w, z) = next_takes contract (pick it) it log logs event h (r it h.ended) l e in
      let rest = collect_all contract pick logs events t r z w p in ground arith

  -- Once the subscription has ended without an error and every log that waits is of the event, the
  -- loop ends after one call of `Next` more than there are logs, and has seen their events in
  -- order, whichever cases the calls take of those that can be taken.
  pub collect-AreParsed :
      (contract : Contract) (pick : It k → NextCase) (it : It k) (events : List k.Event)
      → IsReady pick
      → HasEnded contract it
      → AreParsed k contract it.logs events
      → collect (suc (length it.logs)) pick it ≡ (events, true)
  collect-AreParsed contract pick it events r h p =
      collect_all contract pick it.logs events it r h refl p
