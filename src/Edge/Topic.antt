-- ===== src/Edge/Topic.antt =====
-- The topics between an edge driver and the edge agent (lib/js-edge-driver/lib/driver.js, `topic`
-- and `handleMessage`).
use amrc_connectivity_stack.Prelude.{
  ◌≡◌, ◌≢◌, refl, ◌∙◌, ap, List, [], ◌∷◌, ◌++◌, Option, none, some, arith, if◌then◌else◌, ◌==◌,
  nat_eq, list_eq, has, append-nil,
}
use amrc_connectivity_stack.Text.{
  Text, codes, slash, split, NoSlash, split-append, split_of_NoSlash,
}

abbrev pub first : Text
first = codes "fpEdge1"

abbrev suffix : Option Text → Text
suffix none = []
suffix (some []) = []
suffix (some (c ∷ s)) = slash ∷ c ∷ s

-- `topic`, with the driver's id; empty data is left out.
unfoldable pub topic : Text → Text → Option Text → Text
topic id msg data' = first ++ slash ∷ (id ++ slash ∷ (msg ++ suffix data'))

-- A command's handler is kept under "cmd/#".
unfoldable pub handler_key : Text → Text
handler_key msg = if msg == codes "cmd" then codes "cmd/#" else msg

-- `const [,  msg, data]`, with the handler that is called and its data; `none` if there is none.
unfoldable pub route_parts : List Text → List Text → Option (Text × Option Text)
unfolding handler_key
route_parts keys (p ∷ i ∷ m ∷ []) =
    if has (handler_key m) keys then some (handler_key m, none) else none
route_parts keys (p ∷ i ∷ m ∷ d ∷ _) =
    if has (handler_key m) keys then some (handler_key m, some d) else none
route_parts keys _ = none

unfoldable pub handle_message : List Text → Text → Option (Text × Option Text)
unfolding route_parts split
handle_message keys t = route_parts keys (split t)

-- The keys that `setupMessageHandlers` sets.
abbrev pub message_keys : List Text
message_keys = codes "active" ∷ codes "conf" ∷ codes "addr" ∷ codes "cmd/#" ∷ []

-- Data is a single part that is not empty, or there is none.
abbrev pub IsData : Option Text → Type 0
IsData none = Unit
IsData (some s) = (s ≢ []) × NoSlash s

first-NoSlash : NoSlash first
first-NoSlash = omega arith

split-topic :
    (id msg : Text) (data' : Option Text)
    → NoSlash id
    → NoSlash msg
    → IsData data'
    → split (topic id msg data') ≡ first ∷ id ∷ msg ∷ elim data' [ none ↦ [] | some s ↦ s ∷ [] ]
unfolding topic
split-topic id msg none hi hm hd =
    split-append first (id ++ slash ∷ (msg ++ [])) first-NoSlash
    ∙ ap (first ∷◌) (
        split-append id (msg ++ []) hi
        ∙ ap (id ∷◌) (ap split (append-nil msg) ∙ split_of_NoSlash msg hm))
split-topic id msg (some []) hi hm hd = absurd (hd.0 refl)
split-topic id msg (some (c ∷ s)) hi hm hd =
    split-append first (id ++ slash ∷ (msg ++ slash ∷ c ∷ s)) first-NoSlash
    ∙ ap (first ∷◌) (
        split-append id (msg ++ slash ∷ c ∷ s) hi
        ∙ ap (id ∷◌) (split-append msg (c ∷ s) hm ∙ ap (msg ∷◌) (split_of_NoSlash (c ∷ s) hd.1)))

-- A message on the topic of a driver reaches the handler of its name, with its data.
handle_message-topic :
    (keys : List Text) (id msg : Text) (data' : Option Text)
    → NoSlash id
    → NoSlash msg
    → IsData data'
    → handle_message keys (topic id msg data')
      ≡ (if has (handler_key msg) keys then some (handler_key msg, data') else none)
unfolding handle_message route_parts
handle_message-topic keys id msg none hi hm hd =
    ap (route_parts keys) (split-topic id msg none hi hm hd)
handle_message-topic keys id msg (some s) hi hm hd =
    ap (route_parts keys) (split-topic id msg (some s) hi hm hd)
