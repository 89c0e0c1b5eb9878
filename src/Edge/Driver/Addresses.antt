-- ===== src/Edge/Driver/Addresses.antt =====
-- The addresses of a driver, and the handler that they belong to.
use mathlib.Core.List.{map}
use amrc_connectivity_stack.Prelude.{
  arith, ◌≡◌, refl, subst, String, ◌&&◌, ◌⊎◌, List, [], ◌∷◌, Option, none, some, if◌then◌else◌,
  ◌==◌, nat_eq, string_eq, StrictEq, has, All, if_holds, option_holds, Left, inl, inr,
}
use amrc_connectivity_stack.Edge.Driver.{
  Handler, Driver, Packet, Event, connect_status, new_driver, set_status, clear_addrs,
  connect_handler, reconnect_handler, try_subscribe, conn_failed_as, on_connect, handle_addrs,
  read_addrs, set_read, topics_of, use_addrs, on_addr, on_conf, closes, step, run,
}

module _ {S : Type 0} ⦃e : StrictEq S⦄ where
  -- A handler is only asked to subscribe to the specs of one packet, which it read itself.
  abbrev pub IsOwn : Handler S × List S → Type 0
  IsOwn (h, specs) =
      (es : List (String × String)) × (ps : List (String × S)) × (handle_addrs h es ≡ some ps)
      × (specs ≡ map (λ p. p.1) ps)

  abbrev pub NoAddrs : Driver S → Type 0
  NoAddrs d = (d.addrs ≡ none) × (d.topics ≡ none)

  -- There are no addresses, or they are those of one packet that the handler in place has read, and
  -- the topics are made from them.
  abbrev pub HasAddrs : Driver S → Type 0
  HasAddrs d =
      NoAddrs d
      ⊎ ((h : Handler S) × (es : List (String × String)) × (ps : List (String × S)) × (d.handler
            ≡ some h)
          × (handle_addrs h es ≡ some ps)
          × (d.addrs ≡ some ps)
          × (d.topics ≡ some (topics_of ps [])))

  abbrev pub IsConsistent : Driver S → Type 0
  IsConsistent d = HasAddrs d × All IsOwn d.subscribed

  set_status-IsConsistent :
      (st : String) (d : Driver S) → IsConsistent d → IsConsistent (set_status st d)
  unfolding set_status
  set_status-IsConsistent st d h = if_holds IsConsistent d.connected _ _ (λ e. h) (λ e. h)

  reconnect_handler-IsConsistent :
      (d : Driver S) → IsConsistent d → IsConsistent (reconnect_handler d)
  unfolding reconnect_handler
  reconnect_handler-IsConsistent d h = if_holds IsConsistent d.reconnecting _ _ (λ e. h) (λ e. h)

  conn_failed_as-IsConsistent :
      (st : String) (d : Driver S) → IsConsistent d → IsConsistent (conn_failed_as st d)
  unfolding conn_failed_as
  conn_failed_as-IsConsistent st d h =
      reconnect_handler-IsConsistent (set_status st d) (set_status-IsConsistent st d h)

  connect_handler-IsConsistent :
      (d : Driver S) → IsConsistent d → Left IsConsistent (connect_handler d)
  unfolding connect_handler
  connect_handler-IsConsistent d h =
      option_holds (Left IsConsistent) d.handler _ _ (λ e. tt)
        (λ k e. if_holds (Left IsConsistent) k.promises _ _ (λ f. h) (λ f. h))

  IsOwn-specs :
      (d : Driver S) (k : Handler S) (as' : List (String × S))
      → HasAddrs d
      → d.handler ≡ some k
      → d.addrs ≡ some as'
      → IsOwn (k, map (λ p. p.1) as')
  IsOwn-specs d k as' (inl (a, t)) e g = cc
  IsOwn-specs d k as' (inr (h, es, ps, same, read, a, t)) e g = (es, ps, cc, cc)

  try_subscribe-IsConsistent : (d : Driver S) → IsConsistent d → Left IsConsistent (try_subscribe d)
  unfolding try_subscribe
  try_subscribe-IsConsistent d (h, own) =
      option_holds (Left IsConsistent) d.handler _ _ (λ e. tt)
        (λ k e.
          if_holds (Left IsConsistent) (k.has_subscribe && d.status == "UP") _ _
            (λ f.
              option_holds (Left IsConsistent) d.addrs _ _ (λ g. (h, own))
                (λ as' g. (h, (IsOwn-specs d k as' h e g, own))))
            (λ f. (h, own)))

  on_connect-IsConsistent :
      (st : String) (d : Driver S) → IsConsistent d → Left IsConsistent (on_connect st d)
  unfolding on_connect
  on_connect-IsConsistent st d h =
      let d' = if has st connect_status then set_status st d else d in
      let h' : IsConsistent d' =
        if_holds IsConsistent (has st connect_status) _ _ (λ e. set_status-IsConsistent st d h)
          (λ e. h) in
      try_subscribe-IsConsistent _ (
        if_holds IsConsistent (st == "UP") _ _ (λ e. h')
          (λ e. reconnect_handler-IsConsistent d' h'))

  refused-IsConsistent :
      (st : String) (d : Driver S) → IsConsistent d → IsConsistent (set_status st (clear_addrs d))
  unfolding clear_addrs
  refused-IsConsistent st d (h, own) = set_status-IsConsistent st _ (inl (refl, refl), own)

  -- Addresses that are read are those of the packet.
  read_addrs-some :
      (k : Handler S) (q : Option (List (String × String))) (ps : List (String × S))
      → read_addrs k q ≡ some (some ps)
      → (es : List (String × String)) × (handle_addrs k es ≡ some ps)
  unfolding read_addrs
  read_addrs-some k none ps h = cc
  read_addrs-some k (some es) ps h = (es, ground (arith, h))

  set_read-IsConsistent :
      (r : Option (List (String × S))) (k : Handler S) (q : Option (List (String × String)))
      (d : Driver S)
      → d.handler ≡ some k
      → read_addrs k q ≡ some r
      → IsConsistent d
      → Left IsConsistent (set_read r (clear_addrs d))
  unfolding set_read use_addrs clear_addrs
  set_read-IsConsistent none k q d e g h = unfold clear_addrs in refused-IsConsistent "ADDR" d h
  set_read-IsConsistent (some ps) k q d e g (h, own) =
      let (es, f) = read_addrs-some k q ps g in
      try_subscribe-IsConsistent _ (inr (k, es, ps, e, f, refl, refl), own)

  on_addr-IsConsistent :
      (p : Option Packet) (d : Driver S) → IsConsistent d → Left IsConsistent (on_addr p d)
  unfolding on_addr use_addrs clear_addrs
  on_addr-IsConsistent none d h = set_status-IsConsistent "ADDR" d h
  on_addr-IsConsistent (some pkt) d (h, own) =
      option_holds (Left IsConsistent) d.handler _ _
        (λ e. set_status-IsConsistent "ADDR" d (h, own))
        (λ k e.
          if_holds (Left IsConsistent) pkt.version_ok _ _
            (λ f.
              option_holds (Left IsConsistent) (read_addrs k pkt.entries) _ _ (λ g. tt)
                (λ r g. set_read-IsConsistent r k pkt.entries d e g (h, own)))
            (λ f. refused-IsConsistent "ADDR" d (h, own)))

  on_conf-IsConsistent :
      (c : Option (Option (Handler S))) (d : Driver S)
      → IsConsistent d
      → Left IsConsistent (on_conf c d)
  unfolding on_conf clear_addrs
  on_conf-IsConsistent none d (h, own) = set_status-IsConsistent "CONF" _ (inl (refl, refl), own)
  on_conf-IsConsistent (some none) d (h, own) =
      set_status-IsConsistent "CONF" _ (inl (refl, refl), own)
  on_conf-IsConsistent (some (some k)) d (h, own) =
      if_holds (Left IsConsistent) (closes d.handler) _ _ (λ f. (inl (refl, refl), own))
        (λ f. connect_handler-IsConsistent _ (inl (refl, refl), own))

  step-IsConsistent : (ev : Event S) (d : Driver S) → IsConsistent d → Left IsConsistent (step ev d)
  unfolding step
  step-IsConsistent Event.mqtt_connect d h = h
  step-IsConsistent Event.mqtt_lost d h = h
  step-IsConsistent Event.mqtt_subscribed d h = set_status-IsConsistent "READY" d h
  step-IsConsistent Event.online d h = set_status-IsConsistent "READY" d h
  step-IsConsistent (Event.conf c) d h = on_conf-IsConsistent c d h
  step-IsConsistent Event.closed d h =
      if_holds (Left IsConsistent) (d.closing == 0) _ _ (λ f. h)
        (λ f. connect_handler-IsConsistent _ h)
  step-IsConsistent Event.timeout d h =
      if_holds (Left IsConsistent) (d.timers == 0) _ _ (λ f. h)
        (λ f. connect_handler-IsConsistent _ h)
  step-IsConsistent (Event.connect_returned st) d h =
      if_holds (Left IsConsistent) (d.connecting == 0) _ _ (λ f. h)
        (λ f. on_connect-IsConsistent st _ h)
  step-IsConsistent Event.conn_up d h =
      try_subscribe-IsConsistent _ (set_status-IsConsistent "UP" d h)
  step-IsConsistent Event.conn_failed d h = conn_failed_as-IsConsistent "CONN" d h
  step-IsConsistent Event.conn_unauth d h = conn_failed_as-IsConsistent "AUTH" d h
  step-IsConsistent (Event.addr p) d h = on_addr-IsConsistent p d h
  step-IsConsistent (Event.subscribe_returned ok) d h =
      if_holds (Left IsConsistent) (d.subscribing == 0) _ _ (λ f. h)
        (λ f.
          if_holds (Left IsConsistent) ok _ _ (λ g. h)
            (λ g. conn_failed_as-IsConsistent "CONN" _ h))
  step-IsConsistent Event.conf_threw d h = tt
  step-IsConsistent Event.connect_rejected d h =
      if_holds (Left IsConsistent) (d.connecting == 0) _ _ (λ _. h) (λ _. tt)
  step-IsConsistent Event.close_rejected d h =
      if_holds (Left IsConsistent) (d.closing == 0) _ _ (λ _. h) (λ _. tt)
  step-IsConsistent Event.subscribe_rejected d h =
      if_holds (Left IsConsistent) (d.subscribing == 0) _ _ (λ _. h) (λ _. tt)
  step-IsConsistent (Event.command throws) d h =
      option_holds (Left IsConsistent) d.handler _ _ (λ _. tt)
        (λ k _. if_holds (Left IsConsistent) throws _ _ (λ _. tt) (λ _. h))

  run-IsConsistent :
      (es : List (Event S)) (d : Driver S) → IsConsistent d → Left IsConsistent (run es d)
  unfolding run
  run-IsConsistent [] d h = h
  run-IsConsistent (ev ∷ es) d h =
      option_holds (Left IsConsistent) (step ev d) _ _ (λ g. tt)
        (λ d' g. run-IsConsistent es d' (subst (Left IsConsistent) g (step-IsConsistent ev d h)))

  -- From the constructor on, whatever the events, the addresses belong to the handler in place and
  -- to one packet, the topics are made from them, and every subscription is to specs that the
  -- handler has read itself.
  pub run-own_addrs : (es : List (Event S)) → Left IsConsistent (run es new_driver)
  run-own_addrs es = run-IsConsistent es new_driver (inl (refl, refl), tt)
