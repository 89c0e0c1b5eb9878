-- ===== src/Edge/Tests.antt =====
-- Runs of an edge driver, and its theorems at concrete inputs.
use amrc_connectivity_stack.Prelude.{
  ℕ, ◌≡◌, refl, String, true, false, List, [], ◌∷◌, Option, none, some, ◌==◌, string_eq, nat_eq,
  list_eq, if◌then◌else◌, Left,
}
use amrc_connectivity_stack.Edge.Driver.{
  Handler, Driver, Packet, Event, read_addrs, set_read, new_driver, set_status, clear_addrs,
  connect_handler, reconnect_handler, try_subscribe, conn_failed_as, on_connect, parse_all,
  handle_addrs, topics_of, use_addrs, on_addr, on_conf, step, run,
}
use amrc_connectivity_stack.Edge.Driver.Status.{IsSteady, run-new_driver}
use amrc_connectivity_stack.Edge.Driver.Addresses.{IsConsistent, run-own_addrs}

-- Reads every address but "bad" as itself.
abbrev plain : Handler String
plain = record {
  has_subscribe = true;
  has_close = false;
  promises = true;
  valid_addrs = none;
  parse_addr = λ a. if a == "bad" then none else some a;
  parse_throws = λ a. false;
}

abbrev packet : Packet
packet = record { version_ok = true; entries = some (("t1", "a") ∷ ("t2", "b") ∷ []) }

abbrev parsed : List (String × String)
parsed = ("t1", "a") ∷ ("t2", "b") ∷ []

abbrev es : List (Event String)
es =
    Event.mqtt_connect
    ∷ Event.mqtt_subscribed
    ∷ Event.conf (some (some plain))
    ∷ Event.connect_returned "CONN"
    ∷ Event.timeout
    ∷ Event.connect_returned "UP"
    ∷ Event.addr (some packet)
    ∷ []

abbrev status_of : Option (Driver String) → Option String
status_of none = none
status_of (some d) = some d.status

abbrev subscriptions : Option (Driver String) → List (List String)
subscriptions none = []
subscriptions (some d) = specs_of d.subscribed
  where
    specs_of : List (Handler String × List String) → List (List String)
    specs_of [] = []
    specs_of ((h, s) ∷ r) = s ∷ specs_of r

checks : Unit {0}
unfolding set_status clear_addrs connect_handler reconnect_handler try_subscribe conn_failed_as
    on_connect parse_all handle_addrs topics_of read_addrs set_read use_addrs on_addr on_conf step
    run
checks =
    let t1 : status_of (run es new_driver) ≡ some "UP" = refl in
    let t2 : subscriptions (run es new_driver) ≡ (("a" ∷ "b" ∷ []) ∷ []) = refl in
    -- A second configuration, and addresses before the new handler has connected.
    let t3 : subscriptions (
          run
            (Event.conf (some (some plain))
              ∷ Event.connect_returned "UP"
              ∷ Event.conf (some (some plain))
              ∷ Event.addr (some packet)
              ∷ [])
            new_driver)
        ≡ (("a" ∷ "b" ∷ []) ∷ []) =
      refl in
    -- A configuration without a handler while a reconnect is due.
    let t4 : run
          (Event.conf (some (some plain))
            ∷ Event.conn_failed
            ∷ Event.conf (some none)
            ∷ Event.timeout
            ∷ [])
          new_driver
        ≡ none =
      refl in
    tt

run-new_driver_example : Left IsSteady (run es new_driver)
run-new_driver_example = run-new_driver es

run-own_addrs_example : Left IsConsistent (run es new_driver)
run-own_addrs_example = run-own_addrs es

abbrev running : Driver String
running = record new_driver { handler = some plain; timers = 1; reconnecting = true }

abbrev rejected : Driver String
rejected = record running { handler = none }

abbrev read_a : String → Option ℕ
read_a s = if s == "a" then some 7 else none

abbrev addressed : Driver String
addressed = record new_driver {
  handler = some plain;
  addrs = some parsed;
  topics = some (topics_of parsed []);
}
