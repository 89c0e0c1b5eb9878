-- ===== src/Edge/Data.antt =====
-- How edge drivers publish data: the class PolledDriver (lib/js-edge-driver/lib/polled.js) and
-- AsyncDriver (lib/js-edge-driver/lib/async.js).
use amrc_connectivity_stack.Prelude.{
  ◌≡◌, refl, ◌↔◌, sym, ◌∙◌, ap, String, List, [], ◌∷◌, Option, none, some, arith, string_eq,
  StrictEq, lookup, In, In-flat_map, flat_map, inl, inr, Option-cases, option_holds,
}
use amrc_connectivity_stack.Text.{Text, codes}
use amrc_connectivity_stack.Edge.Topic.{topic}
use amrc_connectivity_stack.Edge.Driver.{Driver, topics_of}
use amrc_connectivity_stack.Edge.Driver.Reading.{topics_of-lookup}
use amrc_connectivity_stack.Edge.Driver.Addresses.{HasAddrs}

-- `this.topic("data", t)`
abbrev pub data_topic : Text → String → Text
data_topic id t = topic id (codes "data") (some (codes t))

module _ {S B : Type 0} where
  -- What one read publishes; nothing if the handler has no data. `read` is what `handler.poll` gives
  -- for each spec in this round.
  abbrev publish : (S → Option B) → Text → Option S → List (Text × B)
  publish read d none = []
  publish read d (some s) = elim (read s) [ none ↦ [] | some b ↦ (d, b) ∷ [] ]

  -- `poll`: what is published, in order.
  unfoldable pub poll :
      Text → (S → Option B) → Option (List (String × S)) → List String → List (Text × B)
  poll id read none topics = []
  poll id read (some addrs) topics =
      flat_map (λ t. publish read (data_topic id t) (lookup t addrs)) topics

  In-publish :
      (read : S → Option B) (d e : Text) (b : B) (o : Option S)
      → In (e, b) (publish read d o) ↔ ((s : S) × (o ≡ some s) × (e ≡ d) × (read s ≡ some b))
  In-publish read d e b none = (λ i. absurd i, λ (s, x, y, z). cc)
  In-publish read d e b (some s) =
      let P : List (Text × B) → Type 0 =
        λ l. In (e, b) l ↔ ((k : S) × (some s ≡ some k) × (e ≡ d) × (read k ≡ some b)) in
      option_holds P (read s) _ _ (λ f. (λ i. absurd i, λ (k, x, y, z). cc))
        (λ c f. (
          λ i. elim i [
            | inl x ↦ (s, refl, ap (λ r. r.0) x, f ∙ ap some (sym (ap (λ r. r.1) x)))
            | inr x ↦ absurd x
          ],
          λ (k, x, y, z). inl cc,
        ))

  -- A poll publishes exactly what the handler reads for the addresses of the topics that are asked,
  -- each on the data topic of its own address.
  poll_iff :
      (id : Text) (read : S → Option B) (addrs : List (String × S)) (topics : List String)
      (d : Text) (b : B)
      → In (d, b) (poll id read (some addrs) topics) ↔ (
          (t : String) × In t topics
          × ((s : S) × (lookup t addrs ≡ some s) × (d ≡ data_topic id t) × (read s ≡ some b)))
  unfolding poll
  poll_iff id read addrs topics d b =
      let each = In-flat_map (d, b) (λ t. publish read (data_topic id t) (lookup t addrs)) topics in
      (
        λ i.
            let (t, at, x) = each.0 i in
            (t, at, (In-publish read (data_topic id t) d b (lookup t addrs)).0 x),
        λ (t, at, x). each.1 (t, at, (In-publish read (data_topic id t) d b (lookup t addrs)).1 x),
      )

module _ {S : Type 0} ⦃e : StrictEq S⦄ where
  -- `AsyncDriver.data`: the topic that a spec's data is published on, if there is one.
  unfoldable pub data_topic_of : Text → S → Driver S → Option Text
  data_topic_of id s d = elim d.topics [
    | none ↦ none
    | some ts ↦ elim (lookup s ts) [ none ↦ none | some t ↦ some (data_topic id t) ]
  ]

  -- With addresses of one packet that the handler has read, and the topics made from them, data of a
  -- spec is only published on the data topic of an address that has the spec.
  data_topic_of-own :
      (id : Text) (s : S) (d : Driver S) (x : Text)
      → HasAddrs d
      → data_topic_of id s d ≡ some x
      → (t : String) × (ps : List (String × S)) × (d.addrs ≡ some ps)
        × In (t, s) ps
        × (x ≡ data_topic id t)
  unfolding data_topic_of
  data_topic_of-own id s d x (inl (a, n)) h = absurd (ground (arith, h, n))
  data_topic_of-own id s d x (inr (k, es, ps, hk, read, a, n)) h =
      elim (Option-cases (lookup s (topics_of ps []))) [
        | inl f ↦ absurd (ground (arith, h, n, f))
        | inr (t, f) ↦ (t, ps, a, (topics_of-lookup s t ps).0 f, ground (arith, h, n, f))
      ]
