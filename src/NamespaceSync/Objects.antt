-- ===== src/NamespaceSync/Objects.antt =====
-- The objects that pkg/controllers/namespacesync reads and creates, copyObjectForCreate of copy.go,
-- and the order in which walkReferences of references.go visits the references of a ClusterClass.
pub mod Keys
use cluster_api_runtime_exte.Prelude.{
  ℕ, ◌≡◌, Bool, ◌&&◌, List, [], ◌∷◌, ◌++◌, Option, none, some, Text, codes, text_eq,
}

-- The group, version and kind of an object are one text.
pub record Key : Type 0 where
  pub kind : Text
  pub namespace : Text
  pub name : Text

-- A template reference of a ClusterClass, for which `ToObjectReference` is not nil.
pub record Ref : Type 0 where
  pub kind : Text
  pub name : Text

pub record MachineDeploymentClass : Type 0 where
  pub infrastructure : Option Ref
  pub bootstrap : Option Ref

pub record ClassSpec : Type 0 where
  pub infrastructure : Option Ref
  pub control_plane : Option Ref
  pub machine_infrastructure : Option Ref
  pub machine_deployments : List MachineDeploymentClass

pub data Body : Type 0 where
  cluster_class : ClassSpec → Body
  template : Text → Body

-- What copyObjectForCreate resets beside the name and the namespace; the annotations are not reset.
pub record Metadata : Type 0 where
  pub annotations : List (Text × Text)
  pub labels : List (Text × Text)
  pub creation_timestamp : ℕ
  pub deletion_grace_period_seconds : Option ℕ
  pub deletion_timestamp : Option ℕ
  pub finalizers : List Text
  pub generate_name : Text
  pub generation : ℕ
  pub managed_fields : List Text
  pub owner_references : List Text
  pub resource_version : Text
  pub self_link : Text
  pub uid : Text

pub record Object : Type 0 where
  pub key : Key
  pub metadata : Metadata
  pub body : Body

abbrev pub class_kind : Text
class_kind = codes "cluster.x-k8s.io/v1beta2 ClusterClass"

unfoldable pub copy_object_for_create : Object → Text → Text → Object
copy_object_for_create src name namespace = record {
  key = record src.key { name = name; namespace = namespace };
  metadata = record src.metadata {
    creation_timestamp = 0;
    deletion_grace_period_seconds = none;
    deletion_timestamp = none;
    finalizers = [];
    generate_name = [];
    generation = 0;
    labels = [];
    managed_fields = [];
    owner_references = [];
    resource_version = [];
    self_link = [];
    uid = [];
  };
  body = src.body;
}

abbrev pub listed_ref : Option Ref → List Ref
listed_ref none = []
listed_ref (some r) = r ∷ []

abbrev pub deployment_refs : List MachineDeploymentClass → List Ref
deployment_refs [] = []
deployment_refs (md ∷ mds) =
    listed_ref md.infrastructure ++ (listed_ref md.bootstrap ++ deployment_refs mds)

abbrev pub references : ClassSpec → List Ref
references c =
    listed_ref c.infrastructure
    ++ (listed_ref c.control_plane
        ++ (listed_ref c.machine_infrastructure ++ deployment_refs c.machine_deployments))

abbrev pub body_refs : Body → List Ref
body_refs (cluster_class c) = references c
body_refs (template t) = []

-- The key of the object that a reference of an object in `namespace` points to.
abbrev pub ref_key : Text → Ref → Key
ref_key namespace r = record { kind = r.kind; namespace = namespace; name = r.name }

unfoldable pub key_eq : Key → Key → Bool
key_eq k l = text_eq k.kind l.kind && (text_eq k.namespace l.namespace && text_eq k.name l.name)
