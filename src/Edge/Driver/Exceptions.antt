-- ===== src/Edge/Driver/Exceptions.antt =====
-- When an event ends in an exception that nothing catches.
use amrc_connectivity_stack.Prelude.{
  ◌-◌, ◌≡◌, ◌≢◌, refl, String, true, false, not, every, List, ◌↔◌, Option, none, some, arith, ◌==◌,
  nat_eq, string_eq, StrictEq, if_holds, option_holds,
}
use amrc_connectivity_stack.Edge.Driver.{Handler, Driver, Event, connect_handler, step}

module _ {S : Type 0} where
  abbrev Succeeds : Option (Driver S) → Type 0
  Succeeds o = o ≢ none

  -- The handler reads the addresses of a packet without an exception.
  abbrev pub Parses : Handler S → Option (List (String × String)) → Type 0
  Parses h none = ⊥
  Parses h (some es) = every (λ e. not (h.parse_throws e.1)) es ≡ true

  -- No call of the handler throws or is rejected, and an address packet has addresses.
  abbrev pub Harmless : Handler S → Event S → Type 0
  Harmless h (Event.addr none) = Unit
  Harmless h (Event.addr (some p)) = p.version_ok ≡ true → Parses h p.entries
  Harmless h Event.conf_threw = ⊥
  Harmless h Event.connect_rejected = ⊥
  Harmless h Event.close_rejected = ⊥
  Harmless h Event.subscribe_rejected = ⊥
  Harmless h (Event.command true) = ⊥
  Harmless h _ = Unit

  -- There is this handler.
  module _ (h : Handler S) where
    abbrev Has : Driver S → Type 0
    Has d = d.handler ≡ some h

  connect_handler-none_iff : (d : Driver S) → (connect_handler d ≡ none) ↔ (d.handler ≡ none)
  unfolding connect_handler
  connect_handler-none_iff d =
      let P : Option (Driver S) → Type 0 = λ o. (o ≡ none) ↔ (d.handler ≡ none) in
      option_holds P d.handler _ _ (λ f. (λ x. f, λ x. refl))
        (λ k f. if_holds P k.promises _ _ (λ g. (λ x. cc, λ x. cc)) (λ g. (λ x. cc, λ x. cc)))

module _ {S : Type 0} ⦃e : StrictEq S⦄ where
  -- A reconnect timer that fires ends in an uncaught exception exactly if there is no handler by
  -- then.
  step-timeout_iff :
      (d : Driver S) → (step Event.timeout d ≡ none) ↔ ((d.timers ≢ 0) × (d.handler ≡ none))
  unfolding step
  step-timeout_iff d =
      let P : Option (Driver S) → Type 0 =
        λ o. (o ≡ none) ↔ ((d.timers ≢ 0) × (d.handler ≡ none)) in
      if_holds P (d.timers == 0) _ _ (λ f. (λ x. cc, λ (n, x). absurd (ground (arith, n, f))))
        (λ f.
          let fires =
            connect_handler-none_iff (record d { reconnecting = false; timers = d.timers - 1 }) in
          (λ x. (λ z. ground (arith, f, z), fires.0 x), λ (n, x). fires.1 x))
