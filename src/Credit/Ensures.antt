-- ===== src/Credit/Ensures.antt =====
-- A postcondition of an action that holds where the action succeeds; the rule for a sequence.
use fo_c.Base.{⊤, Result, ok, err, ◌≡◌, refl}
use fo_c.Credit.Types.{Error}
use fo_c.Credit.Store.{Store, Action, ◌>>=◌}

abbrev pub Ensures : {A : Type 0} → (A → Store → Type 0) → Result Error (A × Store) → Type 0
Ensures Q (ok (a, s)) = Q a s
Ensures Q (err e) = ⊤

module _ {A B : Type 0} (P : A → Store → Type 0) (Q : B → Store → Type 0) where
  after :
      (r : Result Error (A × Store)) (f : A → Action B)
      → Ensures P r
      → ((a : A) (t : Store) → P a t → Ensures Q (f a t))
      → (s : Store) → (m : Action A) → m s ≡ r
      → Ensures Q ((m >>= f) s)
  after (ok (a, t)) f p k s m e = rw (e, ◌>>=◌) (k a t p)
  after (err x) f p k s m e = rw (e, ◌>>=◌) tt

  pub >>=-Ensures :
      (m : Action A) (f : A → Action B) (s : Store)
      → Ensures P (m s)
      → ((a : A) (t : Store) → P a t → Ensures Q (f a t))
      → Ensures Q ((m >>= f) s)
  >>=-Ensures m f s p k = after (m s) f p k s m refl

pub Ensures-map :
    {A : Type 0} {P Q : A → Store → Type 0} (r : Result Error (A × Store))
    → ((a : A) (t : Store) → P a t → Q a t)
    → Ensures P r
    → Ensures Q r
Ensures-map (ok (a, t)) f p = f a t p
Ensures-map (err e) f p = tt

pub Ensures-all :
    {A I : Type 0} (P : I → A → Store → Type 0) (r : Result Error (A × Store))
    → ((i : I) → Ensures (P i) r)
    → Ensures (λ a t. (i : I) → P i a t) r
Ensures-all P (ok (a, t)) h = h
Ensures-all P (err e) h = tt
