-- ===== src/Sparkplug/Tests.antt =====
-- Runs of the Sparkplug code, and its theorems at concrete inputs.
use amrc_connectivity_stack.Prelude.{◌≡◌, ◌⊎◌, refl, [], ◌∷◌, ◌++◌, some, arith}
use amrc_connectivity_stack.Text.{codes, slash}
use amrc_connectivity_stack.Sparkplug.Address.{Address, parse_address, address_to_string}
use amrc_connectivity_stack.Sparkplug.Address.RoundTrip.{
  IsWellFormed, parse_address-address_to_string,
}
use amrc_connectivity_stack.Sparkplug.Topic.{
  Topic, topic, parse_topic, topic_to_string, typed, not_topic, throws,
}
use amrc_connectivity_stack.Sparkplug.Topic.RoundTrip.{
  IsTopicType, parse_topic-topic_to_string, topic_to_string-parse_topic,
}

abbrev robot : Address
robot = record { group = codes "Cell"; node = some (codes "Edge"); device = some (codes "Robot") }

robot-IsWellFormed : IsWellFormed robot
robot-IsWellFormed = record {
  group = omega arith;
  name = codes "Edge";
  named = refl;
  node = omega arith;
  device = (λ e. cc, omega arith);
}

abbrev birth : Topic
birth = record { address = robot; type = codes "BIRTH" }

birth-IsTopicType : IsTopicType (codes "BIRTH")
birth-IsTopicType = record { unsplit = omega arith; one_line = ground arith; literal = λ e. cc }

topic_tests :
    (topic_to_string birth ≡ codes "spBv1.0/Cell/DBIRTH/Edge/Robot")
    × (parse_topic (codes "spBv1.0/Cell/NBIRTH/Edge/Robot") ≡ not_topic)
    × (parse_topic (codes "spBv1.0/Cell//Edge") ≡ throws)
    × (parse_topic (codes "spBv1.0/Cell/DBIRTH/Edge/Robot") ≡ topic birth)
unfolding topic_to_string parse_topic typed
topic_tests = (refl, refl, refl, refl)

parse_address-address_to_string_example : parse_address (address_to_string robot) ≡ robot
parse_address-address_to_string_example = parse_address-address_to_string robot robot-IsWellFormed

parse_topic-topic_to_string_example : parse_topic (topic_to_string birth) ≡ topic birth
parse_topic-topic_to_string_example =
    parse_topic-topic_to_string birth robot-IsWellFormed birth-IsTopicType

topic_to_string-parse_topic_example :
    (codes "spBv1.0/Cell/DBIRTH/Edge/Robot" ≡ topic_to_string birth)
    ⊎ (codes "spBv1.0/Cell/DBIRTH/Edge/Robot" ≡ topic_to_string birth ++ slash ∷ [])
unfolding topic_tests
topic_to_string-parse_topic_example =
    topic_to_string-parse_topic (codes "spBv1.0/Cell/DBIRTH/Edge/Robot") birth (ground arith)
      (λ e. cc) topic_tests.3
