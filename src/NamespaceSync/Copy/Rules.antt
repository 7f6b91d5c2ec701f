-- ===== src/NamespaceSync/Copy/Rules.antt =====
-- Rules for what an action ensures: from a world with `P`, a result `a` leaves a world with `Q a`, and
-- an error one with `E`.
use cluster_api_runtime_exte.Prelude.{◌≡◌, some}
use cluster_api_runtime_exte.NamespaceSync.Objects.{Key, Object}
use cluster_api_runtime_exte.NamespaceSync.Objects.Keys.{find}
use cluster_api_runtime_exte.NamespaceSync.Server.{World, Result, ok, err, M, go_on, ◌>>=◌}

abbrev pub Ends : {A : Type 0} → (World → Type 0) → (A → World → Type 0) → Result A → World → Type 0
Ends E Q (ok a) w = Q a w
Ends E Q (err e) w = E w

abbrev pub Ensures :
    {A : Type 0} → (World → Type 0) → (World → Type 0) → (A → World → Type 0) → M A → Type 0
Ensures P E Q m = (w : World) → P w → Ends E Q (m w).0 (m w).1

module _ {A B : Type 0} where
  go_on-Ends :
      (E : World → Type 0) (Q : A → World → Type 0) (R : B → World → Type 0) (f : A → M B)
      → ((a : A) → Ensures (Q a) E R (f a))
      → (r : Result A) (w : World) → Ends E Q r w
      → Ends E R (go_on r w f).0 (go_on r w f).1
  go_on-Ends E Q R f g (ok a) w h = g a w h
  go_on-Ends E Q R f g (err e) w h = h

  pub bind-Ensures :
      (P E : World → Type 0) (Q : A → World → Type 0) (R : B → World → Type 0) (m : M A)
      (f : A → M B)
      → Ensures P E Q m
      → ((a : A) → Ensures (Q a) E R (f a))
      → Ensures P E R (m >>= f)
  bind-Ensures P E Q R m f h g w p = go_on-Ends E Q R f g (m w).0 (m w).1 (h w p)

module _ {A : Type 0} where
  both_ends :
      (E E' : World → Type 0) (Q Q' : A → World → Type 0) (r : Result A) (w : World)
      → Ends E Q r w
      → Ends E' Q' r w
      → Ends (λ v. E v × E' v) (λ a v. Q a v × Q' a v) r w
  both_ends E E' Q Q' (ok a) w h k = (h, k)
  both_ends E E' Q Q' (err e) w h k = (h, k)

  pub both-Ensures :
      (P P' E E' : World → Type 0) (Q Q' : A → World → Type 0) (m : M A)
      → Ensures P E Q m
      → Ensures P' E' Q' m
      → Ensures (λ v. P v × P' v) (λ v. E v × E' v) (λ a v. Q a v × Q' a v) m
  both-Ensures P P' E E' Q Q' m h k w p = both_ends E E' Q Q' (m w).0 (m w).1 (h w p.0) (k w p.1)

  pub weaker_ends :
      (E E' : World → Type 0) (Q Q' : A → World → Type 0)
      → ((w : World) → E w → E' w)
      → ((a : A) (w : World) → Q a w → Q' a w)
      → (r : Result A) (w : World) → Ends E Q r w
      → Ends E' Q' r w
  weaker_ends E E' Q Q' f g (ok a) w h = g a w h
  weaker_ends E E' Q Q' f g (err e) w h = f w h

  pub weaken-Ensures :
      (P P' E E' : World → Type 0) (Q Q' : A → World → Type 0) (m : M A)
      → ((w : World) → P' w → P w)
      → ((w : World) → E w → E' w)
      → ((a : A) (w : World) → Q a w → Q' a w)
      → Ensures P E Q m
      → Ensures P' E' Q' m
  weaken-Ensures P P' E E' Q Q' m before error after h w p =
      weaker_ends E E' Q Q' error after (m w).0 (m w).1 (h w (before w p))

-- An action that leaves `P` as it is, also when it fails.
abbrev pub Keeps : {A : Type 0} → (World → Type 0) → M A → Type 0
Keeps P m = Ensures P P (λ a. P) m

-- The objects of a world are objects of another.
abbrev pub Extends : World → World → Type 0
Extends w v = (k : Key) (o : Object) → find k w.objects ≡ some o → find k v.objects ≡ some o

-- What an action ensures beside a predicate that more objects leave true.
module _ {A : Type 0} (P E : World → Type 0) (Q : A → World → Type 0) (m : M A)
    (grows : (w : World) → Extends w (m w).1)
    (stays : (w v : World) → Extends w v → P w → P v) where
  add_stable : (r : Result A) (w : World) → P w → Ends E Q r w → Ends E (λ a v. P v × Q a v) r w
  add_stable (ok a) w p h = (p, h)
  add_stable (err e) w p h = h

  pub frame-Ensures : Ensures P E Q m → Ensures P E (λ a v. P v × Q a v) m
  frame-Ensures h w p = add_stable (m w).0 (m w).1 (stays w (m w).1 (grows w) p) (h w p)
