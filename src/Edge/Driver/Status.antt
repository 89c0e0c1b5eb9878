-- ===== src/Edge/Driver/Status.antt =====
-- Statuses and reconnection: what holds in every state of a driver.
use amrc_connectivity_stack.Prelude.{
  ◌≡◌, refl, String, true, ◌&&◌, List, [], ◌∷◌, Option, none, some, arith, if◌then◌else◌, ◌==◌,
  nat_eq, string_eq, StrictEq, has, has_iff, In, All, subst, if_holds, option_holds, Left, inl,
}
use amrc_connectivity_stack.Edge.Driver.{
  Handler, Driver, Packet, Event, connect_status, new_driver, set_status, clear_addrs,
  connect_handler, reconnect_handler, try_subscribe, conn_failed_as, on_connect, read_addrs,
  set_read, use_addrs, on_addr, on_conf, closes, step, run,
}

abbrev pub statuses : List String
statuses = "DOWN" ∷ "READY" ∷ "UP" ∷ "CONN" ∷ "AUTH" ∷ "CONF" ∷ "ADDR" ∷ []

abbrev pub IsStatus : String → Type 0
IsStatus st = In st statuses

IsStatus-of_connect : (st : String) → has st connect_status ≡ true → IsStatus st
IsStatus-of_connect st h = ground (arith, (has_iff st connect_status).0 h)

module _ {S : Type 0} where
  -- A timer runs exactly while the driver reconnects, and the status, like all that were published,
  -- is one of those above.
  abbrev pub IsSteady : Driver S → Type 0
  IsSteady d =
      (d.timers ≡ (if d.reconnecting then 1 else 0)) × IsStatus d.status × All IsStatus d.published

  set_status-IsSteady :
      (st : String) (d : Driver S) → IsStatus st → IsSteady d → IsSteady (set_status st d)
  unfolding set_status
  set_status-IsSteady st d known (t, s, p) =
      if_holds IsSteady d.connected _ _ (λ e. (t, known, (known, p))) (λ e. (t, known, p))

  reconnect_handler-IsSteady : (d : Driver S) → IsSteady d → IsSteady (reconnect_handler d)
  unfolding reconnect_handler
  reconnect_handler-IsSteady d (t, s, p) =
      if_holds IsSteady d.reconnecting _ _ (λ e. (t, s, p)) (λ e. (ground (arith, t, e), s, p))

  conn_failed_as-IsSteady :
      (st : String) (d : Driver S) → IsStatus st → IsSteady d → IsSteady (conn_failed_as st d)
  unfolding conn_failed_as
  conn_failed_as-IsSteady st d known h =
      reconnect_handler-IsSteady (set_status st d) (set_status-IsSteady st d known h)

  connect_handler-IsSteady : (d : Driver S) → IsSteady d → Left IsSteady (connect_handler d)
  unfolding connect_handler
  connect_handler-IsSteady d h =
      option_holds (Left IsSteady) d.handler _ _ (λ e. tt)
        (λ k e. if_holds (Left IsSteady) k.promises _ _ (λ f. h) (λ f. h))

  try_subscribe-IsSteady : (d : Driver S) → IsSteady d → Left IsSteady (try_subscribe d)
  unfolding try_subscribe
  try_subscribe-IsSteady d h =
      option_holds (Left IsSteady) d.handler _ _ (λ e. tt)
        (λ k e.
          if_holds (Left IsSteady) (k.has_subscribe && d.status == "UP") _ _
            (λ f. option_holds (Left IsSteady) d.addrs _ _ (λ g. h) (λ as' g. h)) (λ f. h))

  on_connect-IsSteady : (st : String) (d : Driver S) → IsSteady d → Left IsSteady (on_connect st d)
  unfolding on_connect
  on_connect-IsSteady st d h =
      let d' = if has st connect_status then set_status st d else d in
      let h' : IsSteady d' =
        if_holds IsSteady (has st connect_status) _ _
          (λ e. set_status-IsSteady st d (IsStatus-of_connect st e) h) (λ e. h) in
      try_subscribe-IsSteady _
        (if_holds IsSteady (st == "UP") _ _ (λ e. h') (λ e. reconnect_handler-IsSteady d' h'))

module _ {S : Type 0} ⦃e : StrictEq S⦄ where
  use_addrs-IsSteady :
      (ps : List (String × S)) (d : Driver S) → IsSteady d → Left IsSteady (use_addrs ps d)
  unfolding use_addrs
  use_addrs-IsSteady ps d h = try_subscribe-IsSteady _ h

  refused-IsSteady :
      (st : String) (d : Driver S)
      → IsStatus st
      → IsSteady d
      → IsSteady (set_status st (clear_addrs d))
  unfolding clear_addrs
  refused-IsSteady st d known h = set_status-IsSteady st (clear_addrs d) known h

  set_read-IsSteady :
      (r : Option (List (String × S))) (d : Driver S)
      → IsSteady d
      → Left IsSteady (set_read r (clear_addrs d))
  unfolding set_read
  set_read-IsSteady none d h = refused-IsSteady "ADDR" d (ground arith) h
  set_read-IsSteady (some ps) d h = use_addrs-IsSteady ps (clear_addrs d) (unfold clear_addrs in h)

  on_addr-IsSteady : (p : Option Packet) (d : Driver S) → IsSteady d → Left IsSteady (on_addr p d)
  unfolding on_addr
  on_addr-IsSteady none d h = set_status-IsSteady "ADDR" d (ground arith) h
  on_addr-IsSteady (some pkt) d h =
      option_holds (Left IsSteady) d.handler _ _
        (λ e. set_status-IsSteady "ADDR" d (ground arith) h)
        (λ k e.
          if_holds (Left IsSteady) pkt.version_ok _ _
            (λ f.
              option_holds (Left IsSteady) (read_addrs k pkt.entries) _ _ (λ g. tt)
                (λ r g. set_read-IsSteady r d h))
            (λ f. refused-IsSteady "ADDR" d (ground arith) h))

  on_conf-IsSteady :
      (c : Option (Option (Handler S))) (d : Driver S) → IsSteady d → Left IsSteady (on_conf c d)
  unfolding on_conf clear_addrs
  on_conf-IsSteady none d h = set_status-IsSteady "CONF" _ (ground arith) h
  on_conf-IsSteady (some none) d h = set_status-IsSteady "CONF" _ (ground arith) h
  on_conf-IsSteady (some (some k)) d h =
      if_holds (Left IsSteady) (closes d.handler) _ _ (λ f. h) (λ f. connect_handler-IsSteady _ h)

  -- Every event keeps it.
  pub step-IsSteady : (ev : Event S) (d : Driver S) → IsSteady d → Left IsSteady (step ev d)
  unfolding step
  step-IsSteady Event.mqtt_connect d h = h
  step-IsSteady Event.mqtt_lost d h = h
  step-IsSteady Event.mqtt_subscribed d h = set_status-IsSteady "READY" d (ground arith) h
  step-IsSteady Event.online d h = set_status-IsSteady "READY" d (ground arith) h
  step-IsSteady (Event.conf c) d h = on_conf-IsSteady c d h
  step-IsSteady Event.closed d h =
      if_holds (Left IsSteady) (d.closing == 0) _ _ (λ f. h) (λ f. connect_handler-IsSteady _ h)
  step-IsSteady Event.timeout d (t, s, p) =
      if_holds (Left IsSteady) (d.timers == 0) _ _ (λ f. (t, s, p))
        (λ f. connect_handler-IsSteady _ (ground (arith, t, f), s, p))
  step-IsSteady (Event.connect_returned st) d h =
      if_holds (Left IsSteady) (d.connecting == 0) _ _ (λ f. h) (λ f. on_connect-IsSteady st _ h)
  step-IsSteady Event.conn_up d h =
      try_subscribe-IsSteady _ (set_status-IsSteady "UP" d (ground arith) h)
  step-IsSteady Event.conn_failed d h = conn_failed_as-IsSteady "CONN" d (ground arith) h
  step-IsSteady Event.conn_unauth d h = conn_failed_as-IsSteady "AUTH" d (ground arith) h
  step-IsSteady (Event.addr p) d h = on_addr-IsSteady p d h
  step-IsSteady (Event.subscribe_returned ok) d h =
      if_holds (Left IsSteady) (d.subscribing == 0) _ _ (λ f. h)
        (λ f.
          if_holds (Left IsSteady) ok _ _ (λ g. h)
            (λ g. conn_failed_as-IsSteady "CONN" _ (ground arith) h))
  step-IsSteady Event.conf_threw d h = tt
  step-IsSteady Event.connect_rejected d h =
      if_holds (Left IsSteady) (d.connecting == 0) _ _ (λ _. h) (λ _. tt)
  step-IsSteady Event.close_rejected d h =
      if_holds (Left IsSteady) (d.closing == 0) _ _ (λ _. h) (λ _. tt)
  step-IsSteady Event.subscribe_rejected d h =
      if_holds (Left IsSteady) (d.subscribing == 0) _ _ (λ _. h) (λ _. tt)
  step-IsSteady (Event.command throws) d h =
      option_holds (Left IsSteady) d.handler _ _ (λ _. tt)
        (λ k _. if_holds (Left IsSteady) throws _ _ (λ _. tt) (λ _. h))

  run-IsSteady : (es : List (Event S)) (d : Driver S) → IsSteady d → Left IsSteady (run es d)
  unfolding run
  run-IsSteady [] d h = h
  run-IsSteady (ev ∷ es) d h =
      option_holds (Left IsSteady) (step ev d) _ _ (λ g. tt)
        (λ d' g. run-IsSteady es d' (subst (Left IsSteady) g (step-IsSteady ev d h)))

  -- From the constructor on, whatever the events, one reconnect timer runs exactly while the driver
  -- reconnects and else none, and the status, like all that were published, is DOWN, READY, UP, CONN,
  -- AUTH, CONF or ADDR.
  pub run-new_driver : (es : List (Event S)) → Left IsSteady (run es new_driver)
  run-new_driver es = run-IsSteady es new_driver (refl, inl refl, tt)
