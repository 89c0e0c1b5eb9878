-- ===== src/EdgeAgent/Payload/Aliases.antt =====
-- The aliases that births give (acs-edge/lib/sparkplugNode.ts, `#preparePayload`).
use amrc_connectivity_stack.Prelude.{
  ℕ, suc, ◌<◌, ◌≡◌, refl, sym, ap, ◌∙◌, subst, ◌⊎◌, inl, inr, true, List, [], ◌∷◌, ◌++◌,
  append_assoc, Option, none, some, In, In-append, All, arith,
}
use amrc_connectivity_stack.Text.{Text}
use amrc_connectivity_stack.EdgeAgent.Types.{Value, Metric}
use amrc_connectivity_stack.EdgeAgent.Types.Value.{number, real, bigint, long, str, bool, null}
use amrc_connectivity_stack.EdgeAgent.Buffer.{Language}
use amrc_connectivity_stack.EdgeAgent.Metrics.{Clock}
use amrc_connectivity_stack.EdgeAgent.Payload.{
  nulled, tidy, give_alias, prepare_named, prepare_metric, prepare_payload,
}

-- The list with no element twice.
abbrev pub Unique : List ℕ → Type 0
Unique [] = Unit
Unique (x ∷ xs) = (In x xs → ⊥) × Unique xs

-- A new element in the middle.
Unique-insert :
    (k : ℕ) (xs ys : List ℕ) → Unique (xs ++ ys) → (In k (xs ++ ys) → ⊥) → Unique (xs ++ (k ∷ ys))
Unique-insert k [] ys u h = (h, u)
Unique-insert k (x ∷ xs) ys (hx, u) h = (
  λ i. elim ((In-append x xs (k ∷ ys)).0 i) [
    | inl j ↦ hx ((In-append x xs ys).1 (inl j))
    | inr j ↦ elim j [ inl e ↦ h (inl (sym e)) | inr l ↦ hx ((In-append x xs ys).1 (inr l)) ]
  ],
  Unique-insert k xs ys u (λ i. h (inr i)),
)

abbrev pub Below : ℕ → List ℕ → Type 0
Below k = All (λ a. a < k)

Below-In : (k a : ℕ) (xs : List ℕ) → Below k xs → In a xs → a < k
Below-In k a [] h i = absurd i
Below-In k a (x ∷ xs) (hx, h) i = elim i [ inl e ↦ omega arith | inr j ↦ Below-In k a xs h j ]

Below-insert : (k : ℕ) (xs ys : List ℕ) → Below k (xs ++ ys) → Below (suc k) (xs ++ (k ∷ ys))
Below-insert k [] [] h = (omega arith, tt)
Below-insert k [] (y ∷ ys) (hy, h) = (omega arith, (omega arith, (Below-insert k [] ys h).1))
Below-insert k (x ∷ xs) ys (hx, h) = (omega arith, Below-insert k xs ys h)

abbrev pub alias_list : Option ℕ → List ℕ
alias_list none = []
alias_list (some a) = a ∷ []

module _ {F : Type 0} where
  -- The aliases that metrics have.
  abbrev pub aliases : List (Metric F) → List ℕ
  aliases [] = []
  aliases (m ∷ ms) = alias_list m.alias ++ aliases ms

  alias-nulled : (v : Value F) (m : Metric F) → (nulled v m).alias ≡ m.alias
  alias-nulled (number n) m = refl
  alias-nulled (real x) m = refl
  alias-nulled (bigint n) m = refl
  alias-nulled (long n) m = refl
  alias-nulled (str []) m = refl
  alias-nulled (str (c ∷ s)) m = refl
  alias-nulled (bool b) m = refl
  alias-nulled null m = refl

  pub alias-tidy : (lang : Language F) (n : Text) (m : Metric F) → (tidy lang n m).alias ≡ m.alias
  unfolding tidy
  alias-tidy lang n m = alias-nulled _ _

-- Different aliases below the counter.
abbrev pub Good : ℕ → List ℕ → Type 0
Good k l = Unique l × Below k l

Good-insert : (k : ℕ) (xs ys : List ℕ) → Good k (xs ++ ys) → Good (suc k) (xs ++ (k ∷ ys))
Good-insert k xs ys (u, b) = (
  Unique-insert k xs ys u (λ i. let l = Below-In k k (xs ++ ys) b i in omega arith),
  Below-insert k xs ys b,
)

module _ {F : Type 0} (lang : Language F) (c : Clock) where
  -- A metric keeps its alias, or gets the counter's, which moves on.
  abbrev Aliased : ℕ → Option ℕ → ℕ × Metric F → Type 0
  Aliased k al s =
      ((s.0 ≡ k) × (s.1.alias ≡ al)) ⊎ ((al ≡ none) × (s.0 ≡ suc k) × (s.1.alias ≡ some k))

  give_alias-Aliased :
      (al : Option ℕ) (k : ℕ) (t : Metric F) → t.alias ≡ al → Aliased k al (give_alias al k t)
  give_alias-Aliased none k t e = inr (refl, refl, refl)
  give_alias-Aliased (some a) k t e = inl (refl, e)

  prepare_named-Aliased :
      (o : Option Text) (k : ℕ) (m : Metric F) → Aliased k m.alias (prepare_named lang true k m o)
  prepare_named-Aliased none k m = inl (refl, refl)
  prepare_named-Aliased (some n) k m =
      subst (λ al. Aliased k al (give_alias (tidy lang n m).alias k (tidy lang n m)))
        (alias-tidy lang n m) (give_alias-Aliased (tidy lang n m).alias k (tidy lang n m) refl)

  Aliased-Good :
      (used rest post : List ℕ) (k : ℕ) (al : Option ℕ) (s : ℕ × Metric F)
      → Aliased k al s
      → Good k (used ++ ((alias_list al ++ rest) ++ post))
      → Good (s.0) (used ++ ((alias_list (s.1.alias) ++ rest) ++ post))
  Aliased-Good used rest post k al s (inl (e, d)) g =
      subst (λ j. Good j (used ++ ((alias_list (s.1.alias) ++ rest) ++ post))) (sym e)
        (subst (λ o. Good k (used ++ ((alias_list o ++ rest) ++ post))) (sym d) g)
  Aliased-Good used rest post k al s (inr (n, e, d)) g =
      subst (λ j. Good j (used ++ ((alias_list (s.1.alias) ++ rest) ++ post))) (sym e)
        (subst (λ o. Good (suc k) (used ++ ((alias_list o ++ rest) ++ post))) (sym d)
          (Good-insert k used (rest ++ post)
            (subst (λ o. Good k (used ++ ((alias_list o ++ rest) ++ post))) n g)))

  -- The rest of the metrics, after one whose aliases are `al`.
  rest_Good :
      (j k : ℕ) (used al post : List ℕ) (ms rs : List (Metric F))
      → ((used : List ℕ)
          → Good j (used ++ (aliases ms ++ post))
          → Good k (used ++ (aliases rs ++ post)))
      → Good j (used ++ ((al ++ aliases ms) ++ post))
      → Good k (used ++ ((al ++ aliases rs) ++ post))
  rest_Good j k used al post ms rs ih g =
      subst (Good k)
        (append_assoc used al (aliases rs ++ post)
          ∙ ap (used ++◌) (sym (append_assoc al (aliases rs) post)))
        (ih (used ++ al) (
          subst (Good j)
            (ap (used ++◌) (append_assoc al (aliases ms) post)
              ∙ sym (append_assoc used al (aliases ms ++ post)))
            g))

  pub prepare_payload-Good :
      (ms : List (Metric F)) (k : ℕ) (used post : List ℕ)
      → Good k (used ++ (aliases ms ++ post))
      → Good
          (prepare_payload lang c true k ms).counter
          (used ++ (aliases (prepare_payload lang c true k ms).metrics ++ post))
  unfolding prepare_payload
  prepare_payload-Good [] k used post g = g
  prepare_payload-Good (m ∷ ms) k used post g =
      let s = prepare_metric lang true k m in
      let ih = λ (u : List ℕ). prepare_payload-Good ms (s.0) u post in
      let k' = (prepare_payload lang c true (s.0) ms).counter in
      let rs = (prepare_payload lang c true (s.0) ms).metrics in
      rest_Good (s.0) k' used (alias_list (s.1).alias) post ms rs ih
        (Aliased-Good used (aliases ms) post k m.alias s (prepare_named-Aliased m.name k m) g)
