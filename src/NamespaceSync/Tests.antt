-- ===== src/NamespaceSync/Tests.antt =====
-- A class with a template in the namespace "caren", and the target namespace "team".
use cluster_api_runtime_exte.Prelude.{
  ℕ, ◌≡◌, ◌≢◌, refl, false, [], ◌∷◌, none, some, Text, codes, text_eq, is_empty, ◌==◌,
  if◌then◌else◌,
}
use cluster_api_runtime_exte.NamespaceSync.Objects.{
  Ref, ClassSpec, cluster_class, template, Metadata, Object, class_kind, ref_key, key_eq,
}
use cluster_api_runtime_exte.NamespaceSync.Objects.Keys.{find}
use cluster_api_runtime_exte.NamespaceSync.Server.{World, Fault, no_fault, call_error, ok}
use cluster_api_runtime_exte.NamespaceSync.Copy.{in_namespace, list_source_classes, reconcile}
use cluster_api_runtime_exte.NamespaceSync.Copy.Keeps.{reconcile_keeps}
use cluster_api_runtime_exte.NamespaceSync.Copy.Complete.{CopiedAll, reconcile_complete}
use cluster_api_runtime_exte.NamespaceSync.Copy.Closed.{IsValid, reconcile-IsValid}
use cluster_api_runtime_exte.NamespaceSync.Copy.Total.{working, SoundAll, reconcile_total}

abbrev fresh : Metadata
fresh = record {
  annotations = [];
  labels = [];
  creation_timestamp = 0;
  deletion_grace_period_seconds = none;
  deletion_timestamp = none;
  finalizers = [];
  generate_name = [];
  generation = 0;
  managed_fields = [];
  owner_references = [];
  resource_version = [];
  self_link = [];
  uid = [];
}

abbrev infrastructure : Ref
infrastructure = record { kind = codes "T"; name = codes "infra" }

abbrev class_spec : ClassSpec
class_spec = record {
  infrastructure = some infrastructure;
  control_plane = none;
  machine_infrastructure = none;
  machine_deployments = [];
}

abbrev source : Text
source = codes "caren"

abbrev target : Text
target = codes "team"

abbrev class_object : Object
class_object = record {
  key = record { kind = class_kind; namespace = source; name = codes "quick" };
  metadata = fresh;
  body = cluster_class class_spec;
}

abbrev template_object : Object
template_object = record {
  key = ref_key source infrastructure;
  metadata = fresh;
  body = template [];
}

abbrev world : World
world = record { objects = class_object ∷ template_object ∷ []; calls = 0 }

template_found : find (ref_key source infrastructure) world.objects ≡ some template_object
unfolding find key_eq text_eq codes
template_found = refl

class_listed : in_namespace working source world.objects ≡ class_object ∷ []
unfolding in_namespace text_eq codes
class_listed = refl

apart : codes "T" ≢ class_kind
unfolding codes
apart h = absurd (cc h)

away : source ≢ target
unfolding codes
away h = absurd (cc h)

world-IsValid : IsValid target world
world-IsValid = (
  record {
    typed = record { plain = λ n. absurd (n refl); flat = (apart, tt) };
    complete = λ e. absurd (away e);
  },
  (record { typed = record { plain = λ n. refl; flat = tt }; complete = λ e. tt }, tt),
)

-- The fourth call fails.
breaking : ℕ → Fault
breaking n = if n == 3 then call_error (codes "timeout") else no_fault

reconcile_keeps_example :
    find (ref_key source infrastructure) (reconcile breaking source target world).1.objects
    ≡ some template_object
reconcile_keeps_example =
    reconcile_keeps breaking (ref_key source infrastructure) template_object source target world
      template_found

reconcile-IsValid_example : IsValid target (reconcile breaking source target world).1
reconcile-IsValid_example = reconcile-IsValid breaking target source world world-IsValid

sound : SoundAll (in_namespace working source world.objects) world
unfolding in_namespace text_eq codes find key_eq
sound = (((template_object, refl), tt), tt)

source_named : is_empty source ≡ false
unfolding codes
source_named = refl

reconcile_total_example :
    ((reconcile working source target world).0 ≡ ok tt)
    × CopiedAll target
        (in_namespace working source world.objects)
        (reconcile working source target world).1
reconcile_total_example = reconcile_total source target world source_named sound

listed : (list_source_classes working source world).0 ≡ ok (class_object ∷ [])
unfolding list_source_classes in_namespace text_eq codes
listed = refl

reconcile_complete_example :
    CopiedAll target (class_object ∷ []) (reconcile working source target world).1
reconcile_complete_example =
    reconcile_complete working source target world (class_object ∷ []) listed
      (reconcile_total source target world source_named sound).0
