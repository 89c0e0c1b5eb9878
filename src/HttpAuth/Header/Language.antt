-- ===== src/HttpAuth/Header/Language.antt =====
-- The languages of the regular expressions on the `Authorization` header.
use amrc_connectivity_stack.Prelude.{
  ℕ, ◌≡◌, refl, sym, ap, ◌∙◌, ◌↔◌, Bool, true, false, [], ◌∷◌, ◌++◌, none, some, arith,
  if◌then◌else◌, nat_eq, list_eq, subst,
}
use amrc_connectivity_stack.Text.{Text}
use amrc_connectivity_stack.Text.Spans.{
  take_while, drop_while, Run, Stops, take_while-append, drop_while-append,
  take_while-append-drop_while, every-take_while,
}
use amrc_connectivity_stack.HttpAuth.Header.{is_alpha, is_space, is_cred, match_auth}

-- A run of another class stops a run.
Stops-of_Run :
    (p q : ℕ → Bool) (s t : Text)
    → ((c : ℕ) → q c ≡ true → p c ≡ false)
    → Run q s
    → Stops p (s ++ t)
Stops-of_Run p q [] t f h = cc
Stops-of_Run p q (c ∷ s) t f h = f c (ground (arith, h.1))

Stops-creds : (s : Text) → Run is_cred s → Stops is_space s
Stops-creds [] h = cc
Stops-creds (c ∷ s) h = ground (arith, h.1)

some_of_if {ℓ} :
    {A : Type ℓ} (b : Bool) (x y : A)
    → (if b then none else some x) ≡ some y
    → (b ≡ false) × (x ≡ y)
some_of_if true x y h = cc
some_of_if false x y h = (refl, cc)

-- The parts of a header, as the regular expression asks for them.
abbrev Parts : Text → Text × Text → Type 0
Parts s (scheme, creds) =
    (gap : Text) × (s ≡ scheme ++ (gap ++ creds))
    × Run is_alpha scheme
    × Run is_space gap
    × Run is_cred creds

match_auth-Parts : (s : Text) (m : Text × Text) → match_auth s ≡ some m → Parts s m
unfolding match_auth
match_auth-Parts s m h =
    let scheme = take_while is_alpha s in
    let rest = drop_while is_alpha s in
    let gap = take_while is_space rest in
    let creds = drop_while is_space rest in
    let (full, same) = some_of_if _ (scheme, creds) m h in
    subst (Parts s) same (
      gap,
      sym (
          ap (scheme ++◌) (take_while-append-drop_while is_space rest)
          ∙ take_while-append-drop_while is_alpha s),
      (ground (arith, full), every-take_while is_alpha s),
      (ground (arith, full), every-take_while is_space rest),
      (ground (arith, full), ground (arith, full)),
    )

pub match_auth_of_parts :
    (scheme gap creds : Text)
    → Run is_alpha scheme
    → Run is_space gap
    → Run is_cred creds
    → match_auth (scheme ++ (gap ++ creds)) ≡ some (scheme, creds)
unfolding match_auth
match_auth_of_parts scheme gap creds hk hg hc =
    let stop = Stops-of_Run is_alpha is_space gap creds (λ c h. ground arith) hg in
    let end = Stops-creds creds hc in
    simp (
      take_while-append is_alpha scheme (gap ++ creds) hk.1 stop,
      drop_while-append is_alpha scheme (gap ++ creds) hk.1 stop,
      take_while-append is_space gap creds hg.1 end,
      drop_while-append is_space gap creds hg.1 end,
      hk.0,
      hg.0,
      hc.0,
      hc.1,
    )

-- `Auth_rx` accepts exactly letters, spaces and credentials, none of them empty, and gives the
-- first and the last.
match_auth_iff :
    (s scheme creds : Text)
    → (match_auth s ≡ some (scheme, creds)) ↔ (
        (gap : Text) × (s ≡ scheme ++ (gap ++ creds))
        × Run is_alpha scheme
        × Run is_space gap
        × Run is_cred creds)
match_auth_iff s scheme creds = (
  match_auth-Parts s (scheme, creds),
  λ (gap, e, hk, hg, hc). rw e (match_auth_of_parts scheme gap creds hk hg hc),
)
