-- ===== src/Cluster.antt =====
-- What the controllers read of Kubernetes objects (corev1 nodes and pods), and pkg/utils/node.go.
-- A Go map is an association list, or `none` for the nil map.
use vpsie_k8s_autoscaler.Prelude.{
  ℕ, ℤ, String, ◌=ₛ◌, lookup, Bool, false, Option, none, some, List, [], ◌∷◌, if◌then◌else◌,
}

abbrev pub StringMap : Type 0
StringMap = Option (List (String × String))

-- `m[key]`, with its second result.
unfoldable pub get : String → StringMap → Option String
unfolding lookup
get key none = none
get key (some m) = lookup key m

-- `m[key]` alone: a missing key reads as the empty text.
abbrev pub text_of : Option String → String
text_of none = ""
text_of (some v) = v

unfoldable pub get_text : String → StringMap → String
unfolding get
get_text key m = text_of (get key m)

pub record NodeCondition : Type 0 where
  pub condition_type : String
  pub status : String

pub record NodeAddress : Type 0 where
  pub address_type : String
  pub address : String

pub record Taint : Type 0 where
  pub key : String
  pub value : String
  pub effect : String

-- Milli-CPU and bytes.
pub record Resources : Type 0 where
  pub cpu : ℤ
  pub memory : ℤ

pub record Node : Type 0 where
  pub name : String
  pub labels : StringMap
  pub annotations : StringMap
  pub unschedulable : Bool
  pub taints : List Taint
  pub conditions : List NodeCondition
  pub addresses : List NodeAddress
  pub capacity : Resources
  pub allocatable : Resources

unfoldable pub first_ready : List NodeCondition → Bool
first_ready [] = false
first_ready (c ∷ cs) = if c.condition_type =ₛ "Ready" then c.status =ₛ "True" else first_ready cs

unfoldable pub is_node_ready : Node → Bool
unfolding first_ready
is_node_ready n = first_ready n.conditions

pub record Toleration : Type 0 where
  pub key : String
  pub operator : String
  pub value : String
  pub effect : String

pub record Requirement : Type 0 where
  pub key : String
  pub operator : String
  pub values : List String

pub record LabelSelector : Type 0 where
  pub match_labels : List (String × String)
  pub match_expressions : List Requirement

pub record PodTerm : Type 0 where
  pub label_selector : Option LabelSelector
  pub topology_key : String
  pub namespaces : List String
  pub namespace_selector : Option LabelSelector

-- The required terms; the preferred ones are not read.
pub record Affinity : Type 0 where
  pub node_terms : Option (Option (List (List Requirement)))
  pub pod_anti_terms : Option (List PodTerm)

-- The medium of an EmptyDir, whether there is a HostPath, and the name of a claim.
pub record Volume : Type 0 where
  pub empty_dir : Option String
  pub host_path : Bool
  pub claim : Option String

pub record Pod : Type 0 where
  pub name : String
  pub namespace : String
  pub labels : StringMap
  pub annotations : StringMap
  pub deletion_timestamp : Option ℕ
  pub phase : String
  pub owner_kinds : List String
  pub node_name : String
  pub volumes : List Volume
  pub requests : List Resources
  pub init_requests : List Resources
  pub affinity : Option Affinity
