-- ===== src/Base/Transaction.antt =====
-- Code that reads and writes a state and may fail: sequencing, the transaction that rolls back on an
-- error, and a postcondition that holds where the code succeeds with its rule for a sequence.
use fo_c.Base.{⊤, Bool, true, false, Result, ok, err, ◌≡◌, refl, if◌then◌else◌}

abbrev pub Transaction : Type 0 → Type 0 → Type 0 → Type 0
Transaction S E A = S → Result E (A × S)

module _ {S E : Type 0} where
  abbrev pub pure : {A : Type 0} → A → Transaction S E A
  pure a s = ok (a, s)

  abbrev pub fail : {A : Type 0} → E → Transaction S E A
  fail e s = err e

  infixl 5 ◌>>=◌ ◌>>◌
  abbrev pub ◌>>=◌ :
      {A B : Type 0} → Transaction S E A → (A → Transaction S E B) → Transaction S E B
  ◌>>=◌ m f s = elim (m s) [ ok (a, s') ↦ f a s' | err e ↦ err e ]

  abbrev pub ◌>>◌ : {A B : Type 0} → Transaction S E A → Transaction S E B → Transaction S E B
  m >> k = m >>= λ _. k

  -- Fails with `e` where the test holds.
  abbrev pub reject : Bool → E → Transaction S E ⊤
  reject test e s = if test then err e else ok (tt, s)

  abbrev pub from_result : {A : Type 0} → Result E A → Transaction S E A
  from_result (ok a) s = ok (a, s)
  from_result (err e) s = err e

  pub >>=-ok :
      {A B : Type 0} (m : Transaction S E A) (f : A → Transaction S E B) (s : S) (a : A) (t : S)
      → m s ≡ ok (a, t)
      → (m >>= f) s ≡ f a t
  >>=-ok m f s a t e = rw (e, ◌>>=◌) refl

  abbrev pub Ensures : {A : Type 0} → (A → S → Type 0) → Result E (A × S) → Type 0
  Ensures Q (ok (a, s)) = Q a s
  Ensures Q (err e) = ⊤

  module _ {A B : Type 0} (P : A → S → Type 0) (Q : B → S → Type 0) where
    after :
        (r : Result E (A × S)) (f : A → Transaction S E B)
        → Ensures P r
        → ((a : A) (t : S) → P a t → Ensures Q (f a t))
        → (s : S) → (m : Transaction S E A) → m s ≡ r
        → Ensures Q ((m >>= f) s)
    after (ok (a, t)) f p k s m e = rw (e, ◌>>=◌) (k a t p)
    after (err x) f p k s m e = rw (e, ◌>>=◌) tt

    pub >>=-Ensures :
        (m : Transaction S E A) (f : A → Transaction S E B) (s : S)
        → Ensures P (m s)
        → ((a : A) (t : S) → P a t → Ensures Q (f a t))
        → Ensures Q ((m >>= f) s)
    >>=-Ensures m f s p k = after (m s) f p k s m refl

  pub Ensures-map :
      {A : Type 0} {P Q : A → S → Type 0} (r : Result E (A × S))
      → ((a : A) (t : S) → P a t → Q a t)
      → Ensures P r
      → Ensures Q r
  Ensures-map (ok (a, t)) f p = f a t p
  Ensures-map (err e) f p = tt

  pub reject-Ensures :
      (Q : ⊤ → S → Type 0) (test : Bool) (e : E) (s : S)
      → (test ≡ false → Q tt s)
      → Ensures Q (reject test e s)
  reject-Ensures Q true e s h = tt
  reject-Ensures Q false e s h = h refl

  pub unless-Ensures :
      {A : Type 0} (Q : A → S → Type 0) (test : Bool) (e : E) (r : Result E (A × S))
      → (test ≡ false → Ensures Q r)
      → Ensures Q (if test then err e else r)
  unless-Ensures Q true e r h = tt
  unless-Ensures Q false e r h = h refl

  pub when-Ensures :
      {A : Type 0} (Q : A → S → Type 0) (test : Bool) (e : E) (r : Result E (A × S))
      → (test ≡ true → Ensures Q r)
      → Ensures Q (if test then r else err e)
  when-Ensures Q true e r h = h refl
  when-Ensures Q false e r h = tt

  pub if-Ensures :
      {A : Type 0} (Q : A → S → Type 0) (test : Bool) (r q : Result E (A × S))
      → Ensures Q r
      → Ensures Q q
      → Ensures Q (if test then r else q)
  if-Ensures Q true r q h k = h
  if-Ensures Q false r q h k = k
