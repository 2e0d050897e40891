-- ===== src/Abi/Events/Stopping.antt =====
-- Why the goroutine of a watched event returns, in bundler/src/abi/entrypoint.go and
-- bundler/src/abi/erc20.go.
use mathlib.Core.Path.{subst}
use pay_gas_x.Base.{
  ◌≡◌, refl, ◌⊎◌, sym, inl, inr, Bool, true, Option, none, some, err, Text, Option-cases,
  List-cases, Result-cases, arith,
}
use pay_gas_x.Abi.Events.{
  EventKind, Feed, Subscription, Phase, waiting, sending, stopped, WatchCase, take_log, send_event,
  take_err, take_quit, W, parse, stop, on_log, on_err, on_quit, watch,
}
use pay_gas_x.Abi.Events.Watching.{
  Run, Step, arrive, finish, ask, take, Reach, here, then, Phase-cases,
}

module _ {Contract Log : Type 0} (k : EventKind Contract Log) where
  -- What the function returned: nil where `quit` was closed or the subscription ended without an
  -- error, an error where the subscription ended with it or a log could not be unpacked.
  abbrev pub Reason : Contract → Bool → Option (Option Text) → Option Text → Type 0
  Reason contract quit ended none = (quit ≡ true) ⊎ (ended ≡ some none)
  Reason contract quit ended (some m) =
      (ended ≡ some (some m)) ⊎ ((log : Log) × (parse k contract log ≡ err m))

  -- A function that has returned has unsubscribed, and had a reason.
  abbrev pub HasReason : Contract → Bool → Subscription → Phase k.Event → Type 0
  HasReason contract quit sub waiting = Unit
  HasReason contract quit sub (sending _) = Unit
  HasReason contract quit sub (stopped e) =
      (sub.is_unsubscribed ≡ true) × Reason contract quit sub.ended e

  abbrev IsSound : W k → Type 0
  IsSound w = HasReason w.contract w.quit w.sub w.phase

  stop-IsSound :
      (e : Option Text) (w t : W k)
      → Reason w.contract w.quit w.sub.ended e
      → stop k e w ≡ t
      → IsSound t
  unfolding stop
  stop-IsSound e w t h q = subst IsSound q (refl, h)

  on_log-IsSound : (w t : W k) → on_log k w ≡ some t → IsSound t
  unfolding on_log
  on_log-IsSound w t q = elim (List-cases w.logs) [
    | inl l ↦ absurd (ground arith)
    | inr (log, rest, l) ↦ elim (Result-cases (parse k w.contract log)) [
      | inl (event, p) ↦
          let z : record w { logs = rest; phase = sending event } ≡ t = ground arith in
          subst IsSound z tt
      | inr (m, p) ↦
          stop-IsSound (some m) (record w { logs = rest }) t (inr (log, p)) (ground arith)
    ]
  ]

  on_err-IsSound : (w t : W k) → on_err k w ≡ some t → IsSound t
  unfolding on_err
  on_err-IsSound w t q = elim (Option-cases w.sub.ended) [
    | inl n ↦ absurd (ground arith)
    | inr (none, n) ↦ stop-IsSound none w t (inr n) (ground arith)
    | inr (some m, n) ↦ stop-IsSound (some m) w t (inl n) (ground arith)
  ]

  on_quit-IsSound : (w t : W k) → on_quit k w ≡ some t → IsSound t
  unfolding on_quit
  on_quit-IsSound w t q =
      let asked : w.quit ≡ true = ground arith in stop-IsSound none w t (inl asked) (ground arith)

  watch-IsSound : (c : WatchCase) (w t : W k) → watch k c w ≡ some t → IsSound t
  unfolding watch
  watch-IsSound take_log w t h = on_log-IsSound w t (ground arith)
  watch-IsSound send_event w t h = elim (Option-cases (watch k send_event w)) [
    | inl n ↦ absurd (ground arith)
    | inr (u, n) ↦
        let z : t.phase ≡ waiting = ground arith in
        subst (HasReason t.contract t.quit t.sub) (sym z) tt
  ]
  watch-IsSound take_err w t h = on_err-IsSound w t (ground arith)
  watch-IsSound take_quit w t h = on_quit-IsSound w t (ground arith)

  HasReason-finish :
      (contract : Contract) (quit : Bool) (sub : Subscription) (e : Option Text)
      (phase : Phase k.Event)
      → sub.ended ≡ none
      → HasReason contract quit sub phase
      → HasReason contract quit (record sub { ended = some e }) phase
  HasReason-finish contract quit sub e waiting n h = tt
  HasReason-finish contract quit sub e (sending _) n h = tt
  HasReason-finish contract quit sub e (stopped none) n (u, inl q) = (u, inl q)
  HasReason-finish contract quit sub e (stopped none) n (u, inr q) = absurd (ground arith)
  HasReason-finish contract quit sub e (stopped (some m)) n (u, inl q) = absurd (ground arith)
  HasReason-finish contract quit sub e (stopped (some m)) n (u, inr q) = (u, inr q)

  HasReason-ask :
      (contract : Contract) (quit : Bool) (sub : Subscription) (phase : Phase k.Event)
      → HasReason contract quit sub phase
      → HasReason contract true sub phase
  HasReason-ask contract quit sub waiting h = tt
  HasReason-ask contract quit sub (sending _) h = tt
  HasReason-ask contract quit sub (stopped none) h = (h.0, inl refl)
  HasReason-ask contract quit sub (stopped (some m)) h = h

  Step-IsSound : (r : Run k) {t : Run k} → Step k r t → IsSound r.watcher → IsSound t.watcher
  Step-IsSound r (arrive log) i = i
  Step-IsSound r (finish e n) i =
      HasReason-finish r.watcher.contract r.watcher.quit r.watcher.sub e r.watcher.phase n i
  Step-IsSound r ask i =
      HasReason-ask r.watcher.contract r.watcher.quit r.watcher.sub r.watcher.phase i
  Step-IsSound r (take c w h) i = watch-IsSound c r.watcher w h

  Reach-IsSound :
      (contract : Contract) (feed : Feed Log) {r : Run k}
      → Reach k contract feed r
      → IsSound r.watcher
  Reach-IsSound contract feed here = tt
  Reach-IsSound contract feed (then {r = r} p s) = Step-IsSound r s (Reach-IsSound contract feed p)

  -- A goroutine that has returned has unsubscribed. It returned nil only where the program asked it
  -- to or the subscription ended without an error, and an error only where the subscription ended
  -- with it or a log failed to unpack with it.
  pub stopped-HasReason :
      (contract : Contract) (feed : Feed Log) {r : Run k} {e : Option Text}
      → Reach k contract feed r
      → r.watcher.phase ≡ stopped e
      → (r.watcher.sub.is_unsubscribed ≡ true)
        × Reason r.watcher.contract r.watcher.quit r.watcher.sub.ended e
  stopped-HasReason contract feed {r} p q =
      subst (HasReason r.watcher.contract r.watcher.quit r.watcher.sub) q
        (Reach-IsSound contract feed p)

  -- Once `quit` is closed, a goroutine that has not returned can return nil at once, also where an
  -- event waits for a sink that nobody reads: it unsubscribes, that event is not sent, and no case
  -- of the `select` is left to take.
  pub quit_stops :
      (w : W k)
      → w.quit ≡ true
      → ((e : Option Text) × (w.phase ≡ stopped e))
        ⊎ ((t : W k) × (watch k take_quit w ≡ some t)
            × (t.phase ≡ stopped none)
            × (t.sub.is_unsubscribed ≡ true)
            × (t.sink ≡ w.sink)
            × ((c : WatchCase) → watch k c t ≡ none))
  unfolding watch on_quit stop
  quit_stops w q = elim (Phase-cases k w.phase) [
    | inr (inr (e, p)) ↦ inl (e, p)
    | inl p ↦ inr (stop k none w, ground arith, refl, refl, refl, λ c. refl)
    | inr (inl (event, p)) ↦ inr (stop k none w, ground arith, refl, refl, refl, λ c. refl)
  ]
