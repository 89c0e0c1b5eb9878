-- ===== src/Auth/Store/Frame.antt =====
-- What a request cannot touch: the grants of permissions that the client may not write.
use mathlib.Core.Option.{some-injective}
use mathlib.Core.Path.{subst}
use amrc_connectivity_stack.Prelude.{
  ℕ, ◌≡◌, inl, inr, refl, sym, ap, ◌∙◌, Bool, true, false, ◌&&◌, List, [], ◌∷◌, Option, none, some,
  String, arith, ◌==◌, string_eq, nat_eq, filter, All, ==_iff, Bool-cases, Option-cases,
}
use amrc_connectivity_stack.Auth.Store.{
  Ace, Reply, reply, throws, Given, Store, same_key, grant_resolve_uuids, find_row, has_uuid,
  insert_grant, grant_new, delete_row, grant_delete, update_row, clashes, grant_update,
  change_grant, run_grant, grant_request, grant_find, Found, missing, forbidden, not_callable,
  found,
}
use amrc_connectivity_stack.Auth.Store.Rows.{find_row_sound, unique_row}
use amrc_connectivity_stack.Auth.Store.Keeps.{IsValid, resolve_keeps}

abbrev pub of_permission : String → List Ace → List Ace
of_permission p = filter (λ a. a.permission == p)

-- No row with this id has the permission.
abbrev Spares : String → ℕ → List Ace → Type 0
Spares p id = All (λ b. (b.id == id && b.permission == p) ≡ false)

module _ (p : String) where
  delete_row-Spares :
      (id : ℕ) (rows : List Ace)
      → Spares p id rows
      → of_permission p (delete_row id rows) ≡ of_permission p rows
  unfolding delete_row
  delete_row-Spares id [] h = refl
  delete_row-Spares id (b ∷ rows) (hb, h) = ground (arith, delete_row-Spares id rows h)

  update_row-Spares :
      (id : ℕ) (g : Given) (rows : List Ace)
      → (g.permission == p) ≡ false
      → Spares p id rows
      → of_permission p (update_row id g rows) ≡ of_permission p rows
  unfolding update_row
  update_row-Spares id g [] n h = refl
  update_row-Spares id g (b ∷ rows) n (hb, h) = elim (Bool-cases (b.id == id)) [
    | inl y ↦
        let other : (b.permission == p) ≡ false = ground arith in
        rw (y, n, other) (update_row-Spares id g rows n h)
    | inr f ↦ rw f (ground (arith, update_row-Spares id g rows n h))
  ]

  insert_grant-Spares :
      (fresh : String) (g : Given) (s : Store)
      → (g.permission == p) ≡ false
      → of_permission p (insert_grant fresh g s).1.aces ≡ of_permission p s.aces
  unfolding insert_grant
  insert_grant-Spares fresh g s n = elim (Bool-cases (has_uuid fresh s.aces)) [
    | inl y ↦ rw y
    | inr f ↦ rw (f, n)
  ]

  grant_new-Spares :
      (fresh : String) (g : Given) (s : Store)
      → (g.permission == p) ≡ false
      → of_permission p (grant_new fresh g s).1.aces ≡ of_permission p s.aces
  grant_new-Spares fresh g s n =
      let s' = grant_resolve_uuids g s in
      let same = ap (of_permission p) (resolve_keeps g s).0 in
      elim (Option-cases (find_row (same_key g) s'.aces)) [
        | inl e ↦ unfold grant_new in rw (e, grant_new) (insert_grant-Spares fresh g s' n ∙ same)
        | inr (a, e) ↦ unfold grant_new in rw (e, grant_new) same
      ]

  grant_update-Spares :
      (id : ℕ) (g : Given) (s : Store)
      → (g.permission == p) ≡ false
      → Spares p id s.aces
      → of_permission p (grant_update id g s).1.aces ≡ of_permission p s.aces
  unfolding grant_update
  grant_update-Spares id g s n h = elim (Bool-cases (clashes id g s.aces)) [
    | inl y ↦ rw y
    | inr f ↦ rw f (
        let same = (resolve_keeps g s).0 in
        update_row-Spares id g _ n (subst (Spares p id) (sym same) h) ∙ ap (of_permission p) same)
  ]

  change_grant-Spares :
      (id : ℕ) (o : Option Given) (s : Store)
      → ((g : Given) → o ≡ some g → (g.permission == p) ≡ false)
      → Spares p id s.aces
      → of_permission p (change_grant id o s).1.aces ≡ of_permission p s.aces
  unfolding change_grant grant_delete
  change_grant-Spares id none s n h = delete_row-Spares id s.aces h
  change_grant-Spares id (some g) s n h = grant_update-Spares id g s (n g refl) h

  module _ (f : String → Bool) (refused : f p ≡ false) where
    apart : (q : String) → f q ≡ true → (q == p) ≡ false
    apart q h = ground (arith, ==_iff q p)

    found-Spares :
        (uuid : String) (s : Store) (id : ℕ)
        → IsValid s
        → grant_find uuid (some f) s ≡ found id
        → Spares p id s.aces
    unfolding grant_find
    found-Spares uuid s id v e = elim (Option-cases (find_row (λ a. a.uuid == uuid) s.aces)) [
      | inl n ↦ cc (rw (n, grant_find) at e)
      | inr (a, y) ↦ elim (Bool-cases (f a.permission)) [
        | inl ok ↦
            let same : a.id ≡ id = found_inj _ _ (rw (y, grant_find, ok) at e) in
            subst (λ k. Spares p k s.aces) same
              (unique_row p a s.aces v.rows.ids (find_row_sound _ s.aces a y).0
                (apart a.permission ok))
        | inr bad ↦ cc (rw (y, grant_find, bad) at e)
      ]
    ]
      where
        found_inj : (j k : ℕ) → found j ≡ found k → j ≡ k
        found_inj j k h = cc

    run_grant-Spares :
        (fresh : String) (uuid : Option String) (o : Option Given) (s : Store)
        → IsValid s
        → ((g : Given) → o ≡ some g → (g.permission == p) ≡ false)
        → of_permission p
            (run_grant fresh (record { uuid = uuid; grant = o; permitted = some f }) s).1.aces
          ≡ of_permission p s.aces
    unfolding run_grant
    run_grant-Spares fresh none none s v n = refl
    run_grant-Spares fresh none (some g) s v n = grant_new-Spares fresh g s (n g refl)
    run_grant-Spares fresh (some u) o s v n = on_found (grant_find u (some f) s) refl
      where
        on_found :
            (r : Found)
            → grant_find u (some f) s ≡ r
            → of_permission p
                (elim r as (λ _. Reply × Store) [
                  | missing ↦ (reply 404 none, s)
                  | forbidden ↦ (reply 403 none, s)
                  | not_callable ↦ (throws, s)
                  | found id ↦ change_grant id o s
                ]).1.aces
              ≡ of_permission p s.aces
        on_found missing e = refl
        on_found forbidden e = refl
        on_found not_callable e = refl
        on_found (found id) e = change_grant-Spares id o s n (found-Spares u s id v e)

    -- Whatever a client asks for, the grants of a permission that it may not write are the same
    -- afterwards: none is added, changed, taken over or deleted.
    pub grant_request-frame :
        (fresh : String) (uuid : Option String) (o : Option Given) (s : Store)
        → IsValid s
        → of_permission p
            (grant_request fresh (record { uuid = uuid; grant = o; permitted = some f }) s).1.aces
          ≡ of_permission p s.aces
    unfolding grant_request
    grant_request-frame fresh uuid none s v = run_grant-Spares fresh uuid none s v (λ g e. cc)
    grant_request-frame fresh uuid (some g) s v = elim (Bool-cases (f g.permission)) [
      | inl ok ↦ rw ok (
          run_grant-Spares fresh uuid (some g) s v (λ h e.
            apart h.permission
              (subst (λ (k : Given). f k.permission ≡ true) (some-injective g h e) ok)))
      | inr bad ↦ rw bad
    ]
