-- ===== src/Abi/Events/Watching.antt =====
-- The goroutine of a watched event, as it runs beside the node and the program:
-- bundler/src/abi/entrypoint.go and bundler/src/abi/erc20.go.
use mathlib.Core.Path.{subst}
use pay_gas_x.Base.{
  ◌≡◌, refl, ◌⊎◌, ◌∙◌, ap, sym, inl, inr, true, List, [], ◌∷◌, ◌++◌, Option, none, some,
  Option-cases, List-cases, Result-cases, ok, Text, arith,
}
use pay_gas_x.Abi.Events.{
  EventKind, Feed, Phase, waiting, sending, stopped, WatchCase, take_log, send_event, take_err,
  take_quit, W, watching, parse, stop, on_log, on_err, on_quit, watch,
}
use pay_gas_x.Abi.Events.Delivery.{
  IsDelivered, IsDelivered-start, IsDelivered-arrive, IsDelivered-take,
}

module _ {Contract Log : Type 0} (k : EventKind Contract Log) where
  -- The goroutine, and the logs delivered to the channel so far.
  pub record Run : Type 0 where
    pub watcher : W k
    pub sent : List Log

  -- What can happen: the subscription delivers a log or ends, the program unsubscribes, which
  -- closes `quit`, or the goroutine takes a case of its `select`.
  pub data Step (r : Run) : Run → Type 0 where
    arrive :
        (log : Log)
        → Step r (record {
          watcher = record (r.watcher) { logs = r.watcher.logs ++ log ∷ [] };
          sent = r.sent ++ log ∷ [];
        })
    finish :
        (e : Option Text)
        → r.watcher.sub.ended ≡ none
        → Step r (record r {
          watcher = record (r.watcher) { sub = record (r.watcher.sub) { ended = some e } };
        })
    ask : Step r (record r { watcher = record (r.watcher) { quit = true } })
    take :
        (c : WatchCase) (w : W k) → watch k c r.watcher ≡ some w → Step r (record r { watcher = w })

  pub data Reach (contract : Contract) (feed : Feed Log) : Run → Type 0 where
    here : Reach contract feed (record { watcher = watching k contract feed; sent = feed.logs })
    then : {r t : Run} → Reach contract feed r → Step r t → Reach contract feed t

  -- Which of the logs that are left wait in the channel, by what the goroutine does.
  abbrev Waits : Contract → Phase k.Event → List Log → List Log → Type 0
  Waits contract waiting rest logs = rest ≡ logs
  Waits contract (sending event) rest logs =
      (log : Log) × (rest ≡ log ∷ logs) × (parse k contract log ≡ ok event)
  Waits contract (stopped _) rest logs = Unit

  record IsSound (contract : Contract) (r : Run) : Type 0 where
    contract_kept : r.watcher.contract ≡ contract
    rest : List Log
    delivered : IsDelivered k contract r.sent rest r.watcher.sink
    rest_waits : Waits contract r.watcher.phase rest r.watcher.logs

  Waits-arrive :
      (contract : Contract) (phase : Phase k.Event) (rest logs : List Log) (log : Log)
      → Waits contract phase rest logs
      → Waits contract phase (rest ++ log ∷ []) (logs ++ log ∷ [])
  Waits-arrive contract waiting rest logs log h = ap (λ l. l ++ log ∷ []) h
  Waits-arrive contract (sending event) rest logs log (first, h, e) =
      (first, ap (λ l. l ++ log ∷ []) h, e)
  Waits-arrive contract (stopped _) rest logs log h = tt

  -- What one case does to the goroutine: it takes a log and has its event to send, sends it, or
  -- stops.
  data Took (w : W k) : W k → Type 0 where
    reads_log :
        (log : Log) (rest : List Log) (event : k.Event)
        → w.phase ≡ waiting
        → w.logs ≡ log ∷ rest
        → parse k w.contract log ≡ ok event
        → Took w (record w { logs = rest; phase = sending event })
    sends :
        (event : k.Event)
        → w.phase ≡ sending event
        → Took w (record w { sink = w.sink ++ event ∷ []; phase = waiting })
    stops :
        (e : Option Text) (t : W k)
        → t.sink ≡ w.sink
        → t.contract ≡ w.contract
        → t.phase ≡ stopped e
        → Took w t

  pub Phase-cases :
      (phase : Phase k.Event)
      → (phase ≡ waiting)
        ⊎ (((event : k.Event) × (phase ≡ sending event))
            ⊎ ((e : Option Text) × (phase ≡ stopped e)))
  Phase-cases waiting = inl refl
  Phase-cases (sending event) = inr (inl (event, refl))
  Phase-cases (stopped e) = inr (inr (e, refl))

  on_log-Took : (w t : W k) → w.phase ≡ waiting → on_log k w ≡ some t → Took w t
  unfolding on_log stop
  on_log-Took w t h q = elim (List-cases w.logs) [
    | inl l ↦ absurd (ground arith)
    | inr (log, rest, l) ↦ elim (Result-cases (parse k w.contract log)) [
      | inl (event, p) ↦
          let z : record w { logs = rest; phase = sending event } ≡ t = ground arith in
          subst (Took w) z (reads_log log rest event h l p)
      | inr (m, p) ↦ stops (some m) t (ground arith) (ground arith) (ground arith)
    ]
  ]

  on_err-Took : (w t : W k) → on_err k w ≡ some t → Took w t
  unfolding on_err stop
  on_err-Took w t q = elim (Option-cases w.sub.ended) [
    | inl n ↦ absurd (ground arith)
    | inr (e, n) ↦ stops e t (ground arith) (ground arith) (ground arith)
  ]

  on_quit-Took : (w t : W k) → on_quit k w ≡ some t → Took w t
  unfolding on_quit stop
  on_quit-Took w t q = stops none t (ground arith) (ground arith) (ground arith)

  watch-Took : (c : WatchCase) (w t : W k) → watch k c w ≡ some t → Took w t
  unfolding watch
  watch-Took take_log w t h = elim (Phase-cases w.phase) [
    | inl p ↦ on_log-Took w t p (ground arith)
    | inr other ↦ absurd (ground arith)
  ]
  watch-Took send_event w t h = elim (Phase-cases w.phase) [
    | inl p ↦ absurd (ground arith)
    | inr (inl (event, p)) ↦
        let z : record w { sink = w.sink ++ event ∷ []; phase = waiting } ≡ t = ground arith in
        subst (Took w) z (sends event p)
    | inr (inr (e, p)) ↦ absurd (ground arith)
  ]
  watch-Took take_err w t h = on_err-Took w t (ground arith)
  watch-Took take_quit w t h = on_quit-Took w t (ground arith)

  Took-IsSound :
      (contract : Contract) (r : Run) {t : W k}
      → Took r.watcher t
      → IsSound contract r
      → IsSound contract (record r { watcher = t })
  Took-IsSound contract r (reads_log log rest event p l e) i = record {
    contract_kept = i.contract_kept;
    rest = i.rest;
    delivered = i.delivered;
    rest_waits = (
      log,
      subst (λ h. Waits contract h i.rest r.watcher.logs) p i.rest_waits ∙ l,
      subst (λ v. parse k v log ≡ ok event) i.contract_kept e,
    );
  }
  Took-IsSound contract r (sends event p) i =
      let (log, l, e) = subst (λ h. Waits contract h i.rest r.watcher.logs) p i.rest_waits in
      record {
        contract_kept = i.contract_kept;
        rest = r.watcher.logs;
        delivered =
            IsDelivered-take k contract
              (subst (λ q. IsDelivered k contract r.sent q r.watcher.sink) l i.delivered) e;
        rest_waits = refl;
      }
  Took-IsSound contract r (stops e t v c p) i = record {
    contract_kept = c ∙ i.contract_kept;
    rest = i.rest;
    delivered = subst (λ q. IsDelivered k contract r.sent i.rest q) (sym v) i.delivered;
    rest_waits = subst (λ h. Waits contract h i.rest t.logs) (sym p) tt;
  }

  Step-IsSound :
      (contract : Contract) (r : Run) {t : Run} → Step r t → IsSound contract r → IsSound contract t
  Step-IsSound contract r (arrive log) i = record {
    contract_kept = i.contract_kept;
    rest = i.rest ++ log ∷ [];
    delivered = IsDelivered-arrive k contract log i.delivered;
    rest_waits = Waits-arrive contract r.watcher.phase i.rest r.watcher.logs log i.rest_waits;
  }
  Step-IsSound contract r (finish e _) i = record {
    contract_kept = i.contract_kept;
    rest = i.rest;
    delivered = i.delivered;
    rest_waits = i.rest_waits;
  }
  Step-IsSound contract r ask i = record {
    contract_kept = i.contract_kept;
    rest = i.rest;
    delivered = i.delivered;
    rest_waits = i.rest_waits;
  }
  Step-IsSound contract r (take c w h) i = Took-IsSound contract r (watch-Took c r.watcher w h) i

  Reach-IsSound :
      (contract : Contract) (feed : Feed Log) {r : Run} → Reach contract feed r → IsSound contract r
  Reach-IsSound contract feed here = record {
    contract_kept = refl;
    rest = feed.logs;
    delivered = IsDelivered-start k contract feed.logs;
    rest_waits = refl;
  }
  Reach-IsSound contract feed (then {r = r} p s) =
      Step-IsSound contract r s (Reach-IsSound contract feed p)

  -- However the deliveries, the end of the subscription, the program's `Unsubscribe` and the
  -- goroutine's cases fall, what reached the sink are the events of the first logs delivered, in
  -- their order and none left out.
  pub sink-IsDelivered :
      (contract : Contract) (feed : Feed Log) {r : Run}
      → Reach contract feed r
      → (rest : List Log) × IsDelivered k contract r.sent rest r.watcher.sink
  sink-IsDelivered contract feed p = let i = Reach-IsSound contract feed p in (i.rest, i.delivered)
