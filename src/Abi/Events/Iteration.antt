-- ===== src/Abi/Events/Iteration.antt =====
-- The iterator of an event, read by a loop `for it.Next() { ... it.Event ... }` while the node
-- delivers logs: `Next`, `Error` and `Close` of bundler/src/abi/entrypoint.go and
-- bundler/src/abi/erc20.go.
use pay_gas_x.Base.{
  ◌≡◌, refl, ◌∙◌, ap, sym, inl, inr, Bool, true, false, List, [], ◌∷◌, ◌++◌, Option, none, some,
  List-cases, Text, ok, arith,
}
use mathlib.Core.Path.{subst}
use pay_gas_x.Abi.Events.{
  EventKind, Feed, NextCase, It, iterator, parse, receive, buffered, next_done, in_progress, next,
  error, close,
}
use pay_gas_x.Abi.Events.Delivery.{
  AreParsed, IsDelivered, IsDelivered-start, IsDelivered-arrive, IsDelivered-take,
  AreParsed-of_IsDelivered,
}

module _ {Contract Log : Type 0} (k : EventKind Contract Log) where
  -- The iterator, the events the loop has seen, and the logs delivered to the channel so far.
  pub record Run : Type 0 where
    pub it : It k
    pub seen : List k.Event
    pub sent : List Log

  -- What can happen: the subscription delivers a log or ends, with an error or nil; the loop calls
  -- `Next` and looks at the event; the program calls `Close`.
  pub data Step (r : Run) : Run → Type 0 where
    arrive :
        (log : Log)
        → r.it.sub.ended ≡ none
        → Step r (record r {
          it = record (r.it) { logs = r.it.logs ++ log ∷ [] };
          sent = r.sent ++ log ∷ [];
        })
    finish :
        (e : Option Text)
        → r.it.sub.ended ≡ none
        → Step r (record r { it = record (r.it) { sub = record (r.it.sub) { ended = some e } } })
    advance :
        (c : NextCase) (it : It k) (event : k.Event)
        → next k c r.it ≡ some (true, it)
        → it.event_value ≡ some event
        → Step r (record r { it = it; seen = r.seen ++ event ∷ [] })
    halt :
        (c : NextCase) (it : It k)
        → next k c r.it ≡ some (false, it)
        → Step r (record r { it = it })
    shut : Step r (record r { it = (close k r.it).1 })

  pub data Reach (contract : Contract) (feed : Feed Log) : Run → Type 0 where
    here :
        Reach contract feed (record { it = iterator k contract feed; seen = []; sent = feed.logs })
    then : {r t : Run} → Reach contract feed r → Step r t → Reach contract feed t

  -- What no call of `Next` changes; an iterator that is done has a subscription that ended.
  pub record Kept (it t : It k) : Type 0 where
    pub contract : t.contract ≡ it.contract
    pub event : t.event ≡ it.event
    pub sub : t.sub ≡ it.sub

  pub next-Kept : (c : NextCase) (it t : It k) (b : Bool) → next k c it ≡ some (b, t) → Kept it t
  unfolding next next_done in_progress buffered receive
  next-Kept c it t b h = record {
    contract = ground arith;
    event = ground arith;
    sub = ground arith;
  }

  next-true :
      (c : NextCase) (it t : It k) (event : k.Event)
      → it.event ≡ k.name
      → next k c it ≡ some (true, t)
      → t.event_value ≡ some event
      → (log : Log) × (it.logs ≡ log ∷ t.logs)
        × (parse k it.contract log ≡ ok event)
        × (it.fail ≡ none)
  unfolding next next_done in_progress buffered receive parse
  next-true c it t event n h e = elim (List-cases it.logs) [
    | inl q ↦ absurd (ground arith)
    | inr (log, rest, q) ↦
        let p : k.unpack_log it.contract it.event log k.new
            ≡ k.unpack_log it.contract k.name log k.new =
          ap (λ v. k.unpack_log it.contract v log k.new) n in
        (log, ground arith, ground arith, ground arith)
  ]

  next-false :
      (c : NextCase) (it t : It k)
      → next k c it ≡ some (false, t)
      → t.fail ≡ none
      → (t.logs ≡ []) × (it.logs ≡ []) × (t.is_done ≡ true)
  unfolding next next_done in_progress buffered receive
  next-false c it t h f = ground arith

  -- Where the loop stands among the logs.
  record IsSound (contract : Contract) (r : Run) : Type 0 where
    contract_kept : r.it.contract ≡ contract
    event_kept : r.it.event ≡ k.name
    rest : List Log
    delivered : IsDelivered k contract r.sent rest r.seen
    rest_waits : r.it.fail ≡ none → rest ≡ r.it.logs

  IsSound-arrive :
      (contract : Contract) (r : Run) (log : Log)
      → IsSound contract r
      → IsSound contract (record r {
        it = record (r.it) { logs = r.it.logs ++ log ∷ [] };
        sent = r.sent ++ log ∷ [];
      })
  IsSound-arrive contract r log i = record {
    contract_kept = i.contract_kept;
    event_kept = i.event_kept;
    rest = i.rest ++ log ∷ [];
    delivered = IsDelivered-arrive k contract log i.delivered;
    rest_waits = λ f. ap (λ l. l ++ log ∷ []) (i.rest_waits f);
  }

  IsSound-advance :
      (contract : Contract) (r : Run) (c : NextCase) (it : It k) (event : k.Event)
      → next k c r.it ≡ some (true, it)
      → it.event_value ≡ some event
      → IsSound contract r
      → IsSound contract (record r { it = it; seen = r.seen ++ event ∷ [] })
  IsSound-advance contract r c it event h e i =
      let kept = next-Kept c r.it it true h in
      let (log, logs, parsed, no_failure) = next-true c r.it it event i.event_kept h e in
      record {
        contract_kept = kept.contract ∙ i.contract_kept;
        event_kept = kept.event ∙ i.event_kept;
        rest = it.logs;
        delivered =
            IsDelivered-take k contract
              (subst (λ l. IsDelivered k contract r.sent l r.seen) (i.rest_waits no_failure ∙ logs)
                i.delivered)
              (subst (λ v. parse k v log ≡ ok event) i.contract_kept parsed);
        rest_waits = λ f. refl;
      }

  next_fail :
      (c : NextCase) (it t : It k) (b : Bool)
      → next k c it ≡ some (b, t)
      → t.fail ≡ none
      → it.fail ≡ none
  unfolding next next_done in_progress buffered receive
  next_fail c it t b h f = ground arith

  IsSound-halt :
      (contract : Contract) (r : Run) (c : NextCase) (it : It k)
      → next k c r.it ≡ some (false, it)
      → IsSound contract r
      → IsSound contract (record r { it = it })
  IsSound-halt contract r c it h i =
      let kept = next-Kept c r.it it false h in
      record {
        contract_kept = kept.contract ∙ i.contract_kept;
        event_kept = kept.event ∙ i.event_kept;
        rest = i.rest;
        delivered = i.delivered;
        rest_waits = λ f.
            let (after, before, _) = next-false c r.it it h f in
            i.rest_waits (next_fail c r.it it false h f) ∙ before ∙ sym after;
      }

  Step-IsSound :
      (contract : Contract) (r : Run) {t : Run} → Step r t → IsSound contract r → IsSound contract t
  Step-IsSound contract r (arrive log _) i = IsSound-arrive contract r log i
  Step-IsSound contract r (finish e _) i = record {
    contract_kept = i.contract_kept;
    event_kept = i.event_kept;
    rest = i.rest;
    delivered = i.delivered;
    rest_waits = i.rest_waits;
  }
  Step-IsSound contract r (advance c it event h e) i = IsSound-advance contract r c it event h e i
  Step-IsSound contract r (halt c it h) i = IsSound-halt contract r c it h i
  Step-IsSound contract r shut i = record {
    contract_kept = i.contract_kept;
    event_kept = i.event_kept;
    rest = i.rest;
    delivered = i.delivered;
    rest_waits = i.rest_waits;
  }

  Reach-IsSound :
      (contract : Contract) (feed : Feed Log) {r : Run} → Reach contract feed r → IsSound contract r
  Reach-IsSound contract feed here = record {
    contract_kept = refl;
    event_kept = refl;
    rest = feed.logs;
    delivered = IsDelivered-start k contract feed.logs;
    rest_waits = λ f. refl;
  }
  Reach-IsSound contract feed (then {r = r} p s) =
      Step-IsSound contract r s (Reach-IsSound contract feed p)

  -- However the deliveries, the end of the subscription and the calls of `Next` and `Close` fall,
  -- the events that the loop has seen are those of the first logs delivered, in their order and
  -- none left out.
  Reach-IsDelivered :
      (contract : Contract) (feed : Feed Log) {r : Run}
      → Reach contract feed r
      → (rest : List Log) × IsDelivered k contract r.sent rest r.seen
  Reach-IsDelivered contract feed p = let i = Reach-IsSound contract feed p in (i.rest, i.delivered)

  -- A loop that ends, `Next` false and `Error` nil, has seen the event of every log delivered.
  pub complete :
      (contract : Contract) (feed : Feed Log) {r : Run} (c : NextCase) (it : It k)
      → Reach contract feed r
      → next k c r.it ≡ some (false, it)
      → error k it ≡ none
      → AreParsed k contract r.sent r.seen
  complete contract feed {r} c it p h f =
      let i = Reach-IsSound contract feed p in
      let (_, before, _) = next-false c r.it it h f in
      AreParsed-of_IsDelivered k contract (
        subst (λ l. IsDelivered k contract r.sent l r.seen)
          (i.rest_waits (next_fail c r.it it false h f) ∙ before) i.delivered)
