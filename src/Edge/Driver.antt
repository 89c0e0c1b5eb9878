-- ===== src/Edge/Driver.antt =====
-- Class `Driver` (lib/js-edge-driver/lib/driver.js): its state, and what each event does to it. An
-- `async` function is cut where it waits; the rest of it is an event of its own.
pub mod Status
pub mod Reading
pub mod Addresses
pub mod Exceptions
use mathlib.Core.List.{map}
use amrc_connectivity_stack.Prelude.{
  ℕ, suc, ◌+◌, ◌-◌, ◌≡◌, refl, String, Bool, true, false, not, ◌&&◌, List, [], ◌∷◌, ◌++◌, Option,
  none, some, if◌then◌else◌, ◌==◌, nat_eq, string_eq, StrictEq, has, every, lookup, put,
}

-- What the driver uses of a handler that `HandlerClass.create` makes: whether it has the methods
-- `subscribe` and `close`, whether `connect` returns a promise, and how it reads addresses. A falsy
-- result of `parseAddr` is `none`, and `parse_throws` says on which addresses it throws.
pub record Handler (S : Type 0) : Type 0 where
  pub has_subscribe : Bool
  pub has_close : Bool
  pub promises : Bool
  pub valid_addrs : Option (List String)
  pub parse_addr : String → Option S
  pub parse_throws : String → Bool

-- The fields of the class, with what is under way: the calls of `connect`, `close` and `subscribe`
-- that are awaited, and the reconnect timers. The statuses that were published stand latest first.
pub record Driver (S : Type 0) : Type 0 where
  pub status : String
  pub addrs : Option (List (String × S))
  pub topics : Option (List (S × String))
  pub handler : Option (Handler S)
  pub reconnecting : Bool
  pub connected : Bool
  pub connecting : ℕ
  pub closing : ℕ
  pub subscribing : ℕ
  pub timers : ℕ
  pub published : List String
  pub subscribed : List (Handler S × List S)

-- An `addr` packet: whether its version is 1, and the entries of `addrs`, which may be missing.
pub record Packet : Type 0 where
  pub version_ok : Bool
  pub entries : Option (List (String × String))

-- A falsy configuration or packet is `none`; a `conf` comes with what `create` gives for it, and
-- `conf_threw` is one that it throws on. A call of the handler's `connect`, `close` or `subscribe`
-- that throws is one whose promise is rejected; a `command` says whether the handler's `cmd` throws.
pub data Event (S : Type 0) : Type 0 where
  mqtt_connect mqtt_lost mqtt_subscribed online : Event S
  conf : Option (Option (Handler S)) → Event S
  closed timeout : Event S
  connect_returned : String → Event S
  conn_up conn_failed conn_unauth : Event S
  addr : Option Packet → Event S
  subscribe_returned : Bool → Event S
  conf_threw connect_rejected close_rejected subscribe_rejected : Event S
  command : Bool → Event S

abbrev connect_status : List String
connect_status = "UP" ∷ "CONN" ∷ "AUTH" ∷ []

module _ {S : Type 0} where
  abbrev pub new_driver : Driver S
  new_driver = record {
    status = "DOWN";
    addrs = none;
    topics = none;
    handler = none;
    reconnecting = false;
    connected = false;
    connecting = 0;
    closing = 0;
    subscribing = 0;
    timers = 0;
    published = [];
    subscribed = [];
  }

  unfoldable pub set_status : String → Driver S → Driver S
  set_status st d =
      let d' = record d { status = st } in
      if d.connected then record d' { published = st ∷ d.published } else d'

  unfoldable pub clear_addrs : Driver S → Driver S
  clear_addrs d = record d { addrs = none; topics = none }

  -- `handler.connect()`; `none` is the exception of a call on a handler that is not there.
  unfoldable pub connect_handler : Driver S → Option (Driver S)
  connect_handler d = elim d.handler [
    | none ↦ none
    | some h ↦ if h.promises then some (record d { connecting = suc d.connecting }) else some d
  ]

  unfoldable pub reconnect_handler : Driver S → Driver S
  reconnect_handler d =
      if d.reconnecting then d else record d { reconnecting = true; timers = suc d.timers }

  -- The handler subscribes to the specs of all addresses, if it is up and there are any.
  unfoldable pub try_subscribe : Driver S → Option (Driver S)
  try_subscribe d = elim d.handler [
    | none ↦ none
    | some h ↦
        if h.has_subscribe && d.status == "UP"
        then elim d.addrs [
          | none ↦ some d
          | some as' ↦ some (record d {
            subscribing = suc d.subscribing;
            subscribed = (h, map (λ a. a.1) as') ∷ d.subscribed;
          })
        ]
        else some d
  ]

  unfoldable pub conn_failed_as : String → Driver S → Driver S
  unfolding set_status reconnect_handler
  conn_failed_as st d = reconnect_handler (set_status st d)

  -- What is left of `connectHandler` when its promise gives a status.
  unfoldable pub on_connect : String → Driver S → Option (Driver S)
  on_connect st d =
      let d' = if has st connect_status then set_status st d else d in
      try_subscribe (if st == "UP" then d' else reconnect_handler d')

  -- `handler.parseAddr` of every entry; one that is not read spoils all.
  unfoldable pub parse_all :
      (String → Option S) → List (String × String) → Option (List (String × S))
  parse_all parse [] = some []
  parse_all parse ((t, a) ∷ es) = elim (parse a) [
    | none ↦ none
    | some s ↦ elim (parse_all parse es) [ none ↦ none | some ps ↦ some ((t, s) ∷ ps) ]
  ]

  abbrev pub is_valid : Handler S → String → Bool
  is_valid h a = elim h.valid_addrs [ none ↦ true | some as' ↦ has a as' ]

  unfoldable pub handle_addrs : Handler S → List (String × String) → Option (List (String × S))
  handle_addrs h es = if every (λ e. is_valid h e.1) es then parse_all h.parse_addr es else none

  -- `this.handleAddrs(pkt.addrs)`; `none` is an exception, of `Object.entries` or of `parseAddr`.
  unfoldable pub read_addrs :
      Handler S → Option (List (String × String)) → Option (Option (List (String × S)))
  read_addrs h none = none
  read_addrs h (some es) =
      if every (λ e. is_valid h e.1) es && not (every (λ e. not (h.parse_throws e.1)) es)
      then none
      else some (handle_addrs h es)

module _ {S : Type 0} ⦃e : StrictEq S⦄ where
  -- `new Map(parsed.map(([t, s]) => [s, t]))`: the last topic of a spec counts.
  unfoldable pub topics_of : List (String × S) → List (S × String) → List (S × String)
  topics_of [] m = m
  topics_of ((t, s) ∷ ps) m = topics_of ps (put s t m)

  -- What is left of `setAddrs` when the addresses are read, and the handler's exception with it.
  unfoldable pub use_addrs : List (String × S) → Driver S → Option (Driver S)
  use_addrs ps d = try_subscribe (record d { addrs = some ps; topics = some (topics_of ps []) })

  -- What is left of `setAddrs` when the addresses are read or refused.
  unfoldable pub set_read : Option (List (String × S)) → Driver S → Option (Driver S)
  set_read none d = some (set_status "ADDR" d)
  set_read (some ps) d = use_addrs ps d

  -- The message `addr`, with `setAddrs`. The call of `try_subscribe` is not awaited, and the handler
  -- is there.
  unfoldable pub on_addr : Option Packet → Driver S → Option (Driver S)
  on_addr none d = some (set_status "ADDR" d)
  on_addr (some pkt) d = elim d.handler [
    | none ↦ some (set_status "ADDR" d)
    | some h ↦
        if pkt.version_ok
        then elim (read_addrs h pkt.entries) [ none ↦ none | some r ↦ set_read r (clear_addrs d) ]
        else some (set_status "ADDR" (clear_addrs d))
  ]

  abbrev pub closes : Option (Handler S) → Bool
  closes none = false
  closes (some h) = h.has_close

  -- The message `conf`, with `setupHandler`. A configuration that is falsy leaves the handler.
  unfoldable pub on_conf : Option (Option (Handler S)) → Driver S → Option (Driver S)
  on_conf none d = some (set_status "CONF" (clear_addrs d))
  on_conf (some none) d = some (set_status "CONF" (record (clear_addrs d) { handler = none }))
  on_conf (some (some h)) d =
      let d' = record (clear_addrs d) { handler = some h } in
      if closes d.handler then some (record d' { closing = suc d.closing }) else connect_handler d'

  -- One event; `none` is an exception that nothing catches. An event that ends a wait comes only
  -- while something waits.
  unfoldable pub step : Event S → Driver S → Option (Driver S)
  step Event.mqtt_connect d = some (record d { connected = true })
  step Event.mqtt_lost d = some (record d { connected = false })
  step Event.mqtt_subscribed d = some (set_status "READY" d)
  step Event.online d = some (set_status "READY" d)
  step (Event.conf c) d = on_conf c d
  step Event.closed d =
      if d.closing == 0 then some d else connect_handler (record d { closing = d.closing - 1 })
  step Event.timeout d =
      if d.timers == 0
      then some d
      else connect_handler (record d { timers = d.timers - 1; reconnecting = false })
  step (Event.connect_returned st) d =
      if d.connecting == 0
      then some d
      else on_connect st (record d { connecting = d.connecting - 1 })
  step Event.conn_up d = try_subscribe (set_status "UP" d)
  step Event.conn_failed d = some (conn_failed_as "CONN" d)
  step Event.conn_unauth d = some (conn_failed_as "AUTH" d)
  step (Event.addr p) d = on_addr p d
  step (Event.subscribe_returned ok) d =
      if d.subscribing == 0
      then some d
      else let d' = record d { subscribing = d.subscribing - 1 } in
        (if ok then some d' else some (conn_failed_as "CONN" d'))
  step Event.conf_threw d = none
  step Event.connect_rejected d = if d.connecting == 0 then some d else none
  step Event.close_rejected d = if d.closing == 0 then some d else none
  step Event.subscribe_rejected d = if d.subscribing == 0 then some d else none
  step (Event.command throws) d = elim d.handler [
    | none ↦ none
    | some h ↦ if throws then none else some d
  ]

  -- A run of events, which an exception ends.
  unfoldable pub run : List (Event S) → Driver S → Option (Driver S)
  run [] d = some d
  run (e ∷ es) d = elim (step e d) [ none ↦ none | some d' ↦ run es d' ]
