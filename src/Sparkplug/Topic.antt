-- ===== src/Sparkplug/Topic.antt =====
-- Class `Topic`: an address and a topic type, as an MQTT topic string.
pub mod RoundTrip
use amrc_connectivity_stack.Prelude.{
  ℕ, ◌≡◌, refl, Bool, true, false, not, ◌&&◌, ◌||◌, List, [], ◌∷◌, ◌++◌, Option, none, some,
  if◌then◌else◌, ◌==◌, nat_eq, list_eq,
}
use amrc_connectivity_stack.Text.{Text, codes, slash, split, is_line_end, take_line}
use amrc_connectivity_stack.Sparkplug.Address.{Address, new_address, is_device, plus, show}

pub record Topic : Type 0 where
  pub address : Address
  pub type : Text

-- `parse` returns a topic or null; it throws where it takes a null match apart.
pub data Parsed : Type 0 where
  topic : Topic → Parsed
  not_topic throws : Parsed

abbrev pub prefix : Text
prefix = codes "spBv1.0"

unfoldable pub topic_kind : Address → ℕ
unfolding is_device
topic_kind a = if is_device a then b'D' else b'N'

-- `s.match(/(.)(.*)/)`: the first match, at the first code unit that is no line end.
unfoldable pub match_kind : Text → Option (ℕ × Text)
match_kind [] = none
match_kind (c ∷ s) = if is_line_end c then match_kind s else some (c, take_line s)

abbrev kind_topic : Address → Option (ℕ × Text) → Parsed
kind_topic a none = throws
kind_topic a (some (kind, type)) =
    if kind == topic_kind a then topic (record { address = a; type = type }) else not_topic

unfoldable pub parse_parts : List Text → Parsed
unfolding match_kind new_address topic_kind
parse_parts (p ∷ g ∷ t ∷ n ∷ []) =
    if p == prefix then kind_topic (new_address g (some n) none) (match_kind t) else not_topic
parse_parts (p ∷ g ∷ t ∷ n ∷ d ∷ []) =
    if p == prefix then kind_topic (new_address g (some n) (some d)) (match_kind t) else not_topic
parse_parts _ = not_topic

unfoldable pub parse_topic : Text → Parsed
unfolding parse_parts split
parse_topic s = parse_parts (split s)

-- The third part of the topic string.
unfoldable pub typed : Address → Text → Text
unfolding topic_kind
typed a t = if t == plus then t else topic_kind a ∷ t

unfoldable pub topic_to_string : Topic → Text
unfolding is_device topic_kind
topic_to_string t =
    let a = t.address in
    let node = prefix ++ slash ∷ (a.group ++ slash ∷ (typed a t.type ++ slash ∷ show a.node)) in
    if is_device a then node ++ slash ∷ show a.device else node

-- `Address.topic`
unfoldable pub topic_of : Address → Text → Text
unfolding topic_to_string
topic_of a type = topic_to_string (record { address = a; type = type })
