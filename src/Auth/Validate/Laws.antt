-- ===== src/Auth/Validate/Laws.antt =====
-- A UUID is no Kerberos name.
use amrc_connectivity_stack.Prelude.{
  ℕ, ◌≡◌, ◌≢◌, refl, Bool, true, false, [], ◌∷◌, String, arith, ◌==◌, nat_eq, string_eq, All, zero,
  suc,
}
use amrc_connectivity_stack.Text.{Text, codes}
use amrc_connectivity_stack.Auth.Validate.{
  is_hex, dash, times, at_end, hex, then_dash, is_uuid, valid_uuid, krb_after, is_krb, valid_krb,
}

abbrev at : ℕ
at = b'@'

-- What holds of the rest of every string that a pattern's tail accepts, and of each code unit that
-- its test accepts, holds of the whole.
times-All :
    (P : ℕ → Type 0) (n : ℕ) (test : ℕ → Bool) (next : Text → Bool)
    → ((c : ℕ) → test c ≡ true → P c)
    → ((s : Text) → next s ≡ true → All P s)
    → (s : Text) → times n test next s ≡ true
    → All P s
unfolding times
times-All P zero test next ht hn s e = hn s e
times-All P (suc n) test next ht hn [] e = cc
times-All P (suc n) test next ht hn (c ∷ s) e =
    (ht c (ground arith), times-All P n test next ht hn s (ground arith))

abbrev NoAt : Text → Type 0
NoAt = All (λ c. c ≢ at)

hex-NoAt :
    (n : ℕ) (next : Text → Bool)
    → ((s : Text) → next s ≡ true → NoAt s)
    → (s : Text) → hex n next s ≡ true
    → NoAt s
unfolding hex
hex-NoAt n next h = times-All (λ c. c ≢ at) n is_hex next (λ c e. ground arith) h

then_dash-NoAt :
    (next : Text → Bool)
    → ((s : Text) → next s ≡ true → NoAt s)
    → (s : Text) → then_dash next s ≡ true
    → NoAt s
unfolding then_dash
then_dash-NoAt next h = times-All (λ c. c ≢ at) 1 (λ c. c == dash) next (λ c e. ground arith) h

at_end-NoAt : (s : Text) → at_end s ≡ true → NoAt s
at_end-NoAt [] e = tt
at_end-NoAt (c ∷ s) e = cc

is_uuid-NoAt : (s : Text) → is_uuid s ≡ true → NoAt s
unfolding is_uuid
is_uuid-NoAt = hex-NoAt 8 _ (
    then_dash-NoAt _ (
      hex-NoAt 4 _ (
        then_dash-NoAt _ (
          hex-NoAt 4 _ (
            then_dash-NoAt _ (hex-NoAt 4 _ (then_dash-NoAt _ (hex-NoAt 12 at_end at_end-NoAt))))))))

krb_after-NoAt : (s : Text) → NoAt s → krb_after s ≡ false
unfolding krb_after
krb_after-NoAt [] h = refl
krb_after-NoAt (c ∷ s) (n, h) = ground (arith, krb_after-NoAt s h)

is_krb-NoAt : (s : Text) → NoAt s → is_krb s ≡ false
unfolding is_krb
is_krb-NoAt [] h = refl
is_krb-NoAt (c ∷ s) (n, h) = ground (arith, krb_after-NoAt s h)

-- A string that is a valid UUID is no valid Kerberos name, so the two kinds of principal that the
-- service accepts are never confused.
valid_krb_of_valid_uuid : (s : String) → valid_uuid s ≡ true → valid_krb s ≡ false
unfolding valid_uuid valid_krb
valid_krb_of_valid_uuid s e = is_krb-NoAt (codes s) (is_uuid-NoAt (codes s) e)
