-- ===== src/Edge/Driver/Reading.antt =====
-- How a driver reads an address packet, and the map from specs to topics.
use amrc_connectivity_stack.Prelude.{
  ◌≡◌, refl, ◌∙◌, sym, ap, String, true, ◌⊎◌, ◌↔◌, List, [], ◌∷◌, some, arith, ◌==◌, nat_eq,
  string_eq, StrictEq, every, In, Bool-cases, inl, inr, lookup, put, lookup-put, ==_iff,
}
use amrc_connectivity_stack.Edge.Driver.{Handler, parse_all, is_valid, handle_addrs, topics_of}

module _ {S : Type 0} where
  -- Every address is valid for the handler and read by it, and keeps its topic and its place.
  abbrev pub Reads : Handler S → List (String × String) → List (String × S) → Type 0
  Reads h [] [] = Unit
  Reads h ((t, a) ∷ es) ((u, s) ∷ ps) =
      ((is_valid h a ≡ true) × (h.parse_addr a ≡ some s) × (u ≡ t)) × Reads h es ps
  Reads h _ _ = ⊥

  parse_all-Reads :
      (h : Handler S) (es : List (String × String)) (ps : List (String × S))
      → every (λ e. is_valid h e.1) es ≡ true
      → (parse_all h.parse_addr es ≡ some ps) ↔ Reads h es ps
  unfolding parse_all
  parse_all-Reads h [] [] v = (λ e. tt, λ r. refl)
  parse_all-Reads h [] ((u, s) ∷ ps) v = (λ e. cc, λ r. absurd r)
  parse_all-Reads h ((t, a) ∷ es) [] v = ground (arith, parse_all-Reads h es)
  parse_all-Reads h ((t, a) ∷ es) ((u, s) ∷ ps) v = ground (arith, parse_all-Reads h es ps)

  Reads-valid :
      (h : Handler S) (es : List (String × String)) (ps : List (String × S))
      → Reads h es ps
      → every (λ e. is_valid h e.1) es ≡ true
  Reads-valid h [] [] r = refl
  Reads-valid h [] ((u, s) ∷ ps) r = absurd r
  Reads-valid h ((t, a) ∷ es) [] r = absurd r
  Reads-valid h ((t, a) ∷ es) ((u, s) ∷ ps) ((v, p, q), r) =
      ground (arith, v, Reads-valid h es ps r)

  -- A packet is read exactly if all its addresses are.
  handle_addrs_iff :
      (h : Handler S) (es : List (String × String)) (ps : List (String × S))
      → (handle_addrs h es ≡ some ps) ↔ Reads h es ps
  unfolding handle_addrs
  handle_addrs_iff h es ps = elim (Bool-cases (every (λ e. is_valid h e.1) es)) [
    | inl v ↦ rw v (parse_all-Reads h es ps v)
    | inr n ↦ rw n (λ e. cc, λ r. absurd (ground (arith, n, Reads-valid h es ps r)))
  ]

module _ {S : Type 0} ⦃e : StrictEq S⦄ where
  lookup-topics_of :
      (s : S) (t : String) (ps : List (String × S)) (m : List (S × String))
      → lookup s (topics_of ps m) ≡ some t
      → In (t, s) ps ⊎ (lookup s m ≡ some t)
  unfolding topics_of
  lookup-topics_of s t [] m h = inr h
  lookup-topics_of s t ((u, k) ∷ ps) m h = elim (lookup-topics_of s t ps (put k u m) h) [
    | inl i ↦ inl (inr i)
    | inr g ↦ ground (arith, ==_iff k s, lookup-put k s u m, g)
  ]

  topics_of-keeps :
      (s : S) (t : String) (ps : List (String × S)) (m : List (S × String))
      → lookup s m ≡ some t
      → (u : String) × (lookup s (topics_of ps m) ≡ some u)
  unfolding topics_of
  topics_of-keeps s t [] m h = (t, h)
  topics_of-keeps s t ((u, k) ∷ ps) m h = elim (Bool-cases (k == s)) [
    | inl hit ↦ topics_of-keeps s u ps (put k u m) (lookup-put k s u m ∙ rw hit)
    | inr miss ↦ topics_of-keeps s t ps (put k u m) (lookup-put k s u m ∙ rw miss h)
  ]

  topics_of-has :
      (s : S) (t : String) (ps : List (String × S)) (m : List (S × String))
      → In (t, s) ps
      → (u : String) × (lookup s (topics_of ps m) ≡ some u)
  unfolding topics_of
  topics_of-has s t [] m i = absurd i
  topics_of-has s t ((u, k) ∷ ps) m i = elim i [
    | inl same ↦
        topics_of-keeps s u ps (put k u m)
          (lookup-put k s u m ∙ rw ((==_iff k s).1 (sym (ap (λ x. x.1) same))))
    | inr j ↦ topics_of-has s t ps (put k u m) j
  ]

  -- The map from specs to topics names for a spec a topic that has it, and knows every spec of the
  -- addresses.
  pub topics_of-lookup :
      (s : S) (t : String) (ps : List (String × S))
      → (lookup s (topics_of ps []) ≡ some t → In (t, s) ps)
        × (In (t, s) ps → (u : String) × (lookup s (topics_of ps []) ≡ some u))
  topics_of-lookup s t ps =
      (λ h. elim (lookup-topics_of s t ps [] h) [ inl j ↦ j | inr x ↦ cc ], topics_of-has s t ps [])
