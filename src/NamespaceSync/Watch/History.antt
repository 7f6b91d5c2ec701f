-- ===== src/NamespaceSync/Watch/History.antt =====
-- Over the history of a namespace the filter misses no namespace that becomes a target.
use cluster_api_runtime_exte.Prelude.{◌≡◌, refl, Bool, ◌||◌, List, [], ◌∷◌, any, arith}
use cluster_api_runtime_exte.NamespaceSync.Watch.{Event, created, updated, reconciles}

module _ {L : Type 0} (matches : L → Bool) where
  -- The events of a namespace that was seen with labels `l` and then with others, one after another.
  abbrev pub updates : L → List L → List (Event L)
  updates l [] = []
  updates l (m ∷ ms) = updated l m ∷ updates m ms

  abbrev pub history : L → List L → List (Event L)
  history l ms = created l ∷ updates l ms

  later_updates :
      (l : L) (ms : List L)
      → (matches l || any (reconciles matches) (updates l ms)) ≡ (matches l || any matches ms)
  unfolding reconciles
  later_updates l [] = refl
  later_updates l (m ∷ ms) = ground (arith, later_updates m ms)

  -- A namespace is reconciled at some event of its history exactly if it is at some time a target.
  pub any-history :
      (l : L) (ms : List L)
      → any (reconciles matches) (history l ms) ≡ (matches l || any matches ms)
  unfolding reconciles
  any-history l ms = later_updates l ms
