-- ===== src/Abi/Events/Delivery.antt =====
-- What a reader of an event's logs has got of them, for bundler/src/abi/entrypoint.go and
-- bundler/src/abi/erc20.go.
use pay_gas_x.Base.{◌≡◌, refl, ◌∙◌, ap, sym, List, [], ◌∷◌, ◌++◌, ok}
use mathlib.Core.Path.{subst}
use mathlib.Core.List.{append_assoc, append-nil}
use pay_gas_x.Abi.Events.{EventKind, parse}

module _ {Contract Log : Type 0} (k : EventKind Contract Log) (contract : Contract) where
  -- The events are those of the logs, each at its place.
  abbrev pub AreParsed : List Log → List k.Event → Type 0
  AreParsed [] [] = Unit
  AreParsed [] (_ ∷ _) = ⊥
  AreParsed (_ ∷ _) [] = ⊥
  AreParsed (log ∷ logs) (event ∷ events) =
      (parse k contract log ≡ ok event) × AreParsed logs events

  AreParsed-append :
      (log : Log) (event : k.Event) (logs : List Log) (events : List k.Event)
      → AreParsed logs events
      → parse k contract log ≡ ok event
      → AreParsed (logs ++ log ∷ []) (events ++ event ∷ [])
  AreParsed-append log event [] [] h e = (e, tt)
  AreParsed-append log event [] (_ ∷ _) h e = absurd h
  AreParsed-append log event (_ ∷ _) [] h e = absurd h
  AreParsed-append log event (l ∷ logs) (v ∷ events) h e =
      (h.0, AreParsed-append log event logs events h.1 e)

  -- Of the logs `sent`, all but `rest`, the last ones, gave the events `seen`, in their order.
  pub record IsDelivered (sent rest : List Log) (seen : List k.Event) : Type 0 where
    pub taken : List Log
    pub split : sent ≡ taken ++ rest
    pub parsed : AreParsed taken seen

  pub IsDelivered-start : (logs : List Log) → IsDelivered logs logs []
  IsDelivered-start logs = record { taken = []; split = refl; parsed = tt }

  pub IsDelivered-arrive :
      (log : Log) {sent rest : List Log} {seen : List k.Event}
      → IsDelivered sent rest seen
      → IsDelivered (sent ++ log ∷ []) (rest ++ log ∷ []) seen
  IsDelivered-arrive log {sent} {rest} d = record {
    taken = d.taken;
    split = ap (λ l. l ++ log ∷ []) d.split ∙ append_assoc d.taken rest (log ∷ []);
    parsed = d.parsed;
  }

  pub IsDelivered-take :
      {log : Log} {event : k.Event} {sent rest : List Log} {seen : List k.Event}
      → IsDelivered sent (log ∷ rest) seen
      → parse k contract log ≡ ok event
      → IsDelivered sent rest (seen ++ event ∷ [])
  IsDelivered-take {log} {event} {sent} {rest} {seen} d e = record {
    taken = d.taken ++ log ∷ [];
    split = d.split ∙ sym (append_assoc d.taken (log ∷ []) rest);
    parsed = AreParsed-append log event d.taken seen d.parsed e;
  }

  -- Nothing is left: the events are those of all the logs.
  pub AreParsed-of_IsDelivered :
      {sent : List Log} {seen : List k.Event} → IsDelivered sent [] seen → AreParsed sent seen
  AreParsed-of_IsDelivered {sent} {seen} d =
      subst (λ l. AreParsed l seen) (sym (d.split ∙ append-nil d.taken)) d.parsed
