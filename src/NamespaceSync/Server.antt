-- ===== src/NamespaceSync/Server.antt =====
-- The API server and the caching client, as namespacesync calls them: each call reads or extends the
-- store, or fails. createIfNotExists of copy.go and getReference of references.go.
use cluster_api_runtime_exte.Prelude.{ℕ, ◌+◌, List, [], ◌∷◌, ◌++◌, Option, none, some, Text, codes}
use cluster_api_runtime_exte.NamespaceSync.Objects.{Key, Object}
use cluster_api_runtime_exte.NamespaceSync.Objects.Keys.{find}

-- The store, and how many calls were made.
pub record World : Type 0 where
  pub objects : List Object
  pub calls : ℕ

-- What happens to a call: it is answered, it fails, or a read is answered from a cache that does not
-- yet have the object.
pub data Fault : Type 0 where
  no_fault stale : Fault
  call_error : Text → Fault

-- The texts that the code wraps round an error are left out.
pub data Result (A : Type 0) : Type 0 where
  ok : A → Result A
  err : Text → Result A

abbrev pub M : Type 0 → Type 0
M A = World → Result A × World

abbrev pub pure : {A : Type 0} → A → M A
pure a w = (ok a, w)

abbrev pub go_on : {A B : Type 0} → Result A → World → (A → M B) → Result B × World
go_on (ok a) w f = f a w
go_on (err e) w f = (err e, w)

infixl 5 ◌>>=◌
abbrev pub ◌>>=◌ : {A B : Type 0} → M A → (A → M B) → M B
◌>>=◌ m f w = go_on (m w).0 (m w).1 f

pub data Got : Type 0 where
  found : Object → Got
  not_found : Got
  get_failed : Text → Got

abbrev pub called : World → World
called w = record w { calls = w.calls + 1 }

unfoldable pub answer : Option Object → Fault → Got
answer o stale = not_found
answer o (call_error e) = get_failed e
answer none no_fault = not_found
answer (some o) no_fault = found o

unfoldable pub created : Object → World → Option Object → Fault → Result (Unit {0}) × World
created o w old (call_error e) = (err e, called w)
created o w (some old) no_fault = (err (codes "already exists"), called w)
created o w (some old) stale = (err (codes "already exists"), called w)
created o w none no_fault = (ok tt, record { objects = w.objects ++ (o ∷ []); calls = w.calls + 1 })
created o w none stale = (ok tt, record { objects = w.objects ++ (o ∷ []); calls = w.calls + 1 })

module _ (fault : ℕ → Fault) where
  unfoldable pub get : Key → World → Got × World
  unfolding answer
  get k w = (answer (find k w.objects) (fault w.calls), called w)

  unfoldable pub create : Object → M (Unit {0})
  unfolding created
  create o w = created o w (find o.key w.objects) (fault w.calls)

  unfoldable pub reference_of : Got → Result Object
  reference_of (found o) = ok o
  reference_of not_found = err (codes "failed to get reference: not found")
  reference_of (get_failed e) = err (codes "failed to get reference: " ++ e)

  unfoldable pub get_reference : Key → M Object
  unfolding get reference_of
  get_reference k w = let (g, w') = get k w in (reference_of g, w')

  unfoldable pub create_missing : Object → Got → M (Unit {0})
  unfolding create
  create_missing o (found old) w = (ok tt, w)
  create_missing o (get_failed e) w = (err (codes "failed to check if the object exists: " ++ e), w)
  create_missing o not_found w = create o w

  unfoldable pub create_if_not_exists : Object → M (Unit {0})
  unfolding get create_missing
  create_if_not_exists o w = let (g, w') = get o.key w in create_missing o g w'
