-- ===== src/Lifecycle/Creation/Requests.antt =====
-- Creations counted against what the object remembers, through the provisioner.
use vpsie_k8s_autoscaler.Prelude.{
  ℕ, suc, ◌+◌, ◌≤◌, ◌≡◌, refl, String, insert, lookup-insert, text_eq_iff, true, false, none, some,
  List, [], ◌∷◌, ◌==◌, if◌then◌else◌, arith,
}
use vpsie_k8s_autoscaler.Cluster.{StringMap, get, get_text}
use vpsie_k8s_autoscaler.Lifecycle.Types.{VpsieNode}
use vpsie_k8s_autoscaler.Lifecycle.Env.{
  Env, Outcome, Reply, reply, refused, Discovery, no_discoverer, discovery_failed, timed_out,
  discovered, nothing_found, ApiCall, added_slave, Vps,
}
use vpsie_k8s_autoscaler.Lifecycle.Provisioner.{
  put, asks_creation, annotation_creation_requested, creation_requested, mark_requested,
  mark_created, settle_slave, check_vps_status, await_discovery, request_slave, create_vps,
  provision,
}

-- The creations that the VPSie API accepted.
abbrev pub accepted : List ApiCall → ℕ
accepted [] = 0
accepted (added_slave cluster group (reply vps) ∷ cs) = suc (accepted cs)
accepted (_ ∷ cs) = accepted cs

-- 1 if the object remembers that its machine was asked for, by its annotation or an identifier.
unfoldable pub remembered : VpsieNode → ℕ
remembered vn = if creation_requested vn then 1 else if vn.spec.vpsie_instance_id == 0 then 0 else 1

-- Creations are remembered, and what was remembered forbids creations.
abbrev pub Accounts : VpsieNode → Outcome → Type 0
Accounts vn o = accepted o.calls + remembered vn ≤ remembered o.node

check_vps_status-Accounts : (env : Env) (vn : VpsieNode) → Accounts vn (check_vps_status env vn)
unfolding check_vps_status remembered
check_vps_status-Accounts env vn = ground arith

remembered_of_requested : (vn : VpsieNode) → creation_requested vn ≡ true → remembered vn ≡ 1
unfolding remembered
remembered_of_requested vn h = ground arith

await_discovery-requested :
    (d : Discovery) (env : Env) (vn : VpsieNode)
    → creation_requested vn ≡ true
    → (creation_requested (await_discovery d env vn).node ≡ true)
      × (accepted (await_discovery d env vn).calls ≡ 0)
unfolding await_discovery check_vps_status
await_discovery-requested (discovered vps) env vn h = ground arith
await_discovery-requested no_discoverer env vn h = (h, refl)
await_discovery-requested (discovery_failed e) env vn h = (h, refl)
await_discovery-requested timed_out env vn h = (h, refl)
await_discovery-requested nothing_found env vn h = (h, refl)

get_text-insert_self :
    (key value : String) (m : List (String × String))
    → get_text key (some (insert key value m)) ≡ value
unfolding get_text get
get_text-insert_self key value m = rw (lookup-insert key key value m, (text_eq_iff key key).1 refl)

get_text-put_self : (key value : String) (m : StringMap) → get_text key (put key value m) ≡ value
unfolding put
get_text-put_self key value none = get_text-insert_self key value []
get_text-put_self key value (some m) = get_text-insert_self key value m

asks_creation-put :
    (m : StringMap) → asks_creation (put annotation_creation_requested "true" m) ≡ true
unfolding asks_creation
asks_creation-put m = rw (get_text-put_self annotation_creation_requested "true" m)

pub remembered-mark_requested :
    (now : ℕ) (vps : Vps) (vn : VpsieNode) → remembered (mark_requested now vps vn) ≡ 1
unfolding mark_requested remembered
remembered-mark_requested now vps vn = ground (arith, asks_creation-put vn.annotations)

remembered-mark_created :
    (now : ℕ) (vps : Vps) (vn : VpsieNode)
    → (vps.id == 0) ≡ false
    → remembered (mark_created now vps vn) ≡ 1
unfolding mark_created remembered
remembered-mark_created now vps vn h = ground arith

settle_slave-Accounts :
    (now : ℕ) (cluster : String) (group : ℕ) (vn : VpsieNode) (answer : Reply Vps)
    → remembered vn ≡ 0
    → accepted (added_slave cluster group answer ∷ (settle_slave now vn answer).calls)
      ≤ remembered (settle_slave now vn answer).node
unfolding settle_slave
settle_slave-Accounts now cluster group vn (refused e) h = omega arith
settle_slave-Accounts now cluster group vn (reply vps) h =
    ground (arith, remembered-mark_requested now vps vn, remembered-mark_created now vps vn)

request_slave-Accounts :
    (env : Env) (vn : VpsieNode) → remembered vn ≡ 0 → Accounts vn (request_slave env vn)
unfolding request_slave
request_slave-Accounts env vn h = omega (
  arith,
  settle_slave-Accounts env.now vn.spec.resource_identifier vn.spec.vpsie_group_id vn
      (env.add_slave vn.spec.resource_identifier vn.spec.vpsie_group_id) h,
)

remembered_of_neither :
    (vn : VpsieNode)
    → creation_requested vn ≡ false
    → vn.spec.vpsie_instance_id ≡ 0
    → remembered vn ≡ 0
unfolding remembered
remembered_of_neither vn h e = ground arith

create_vps-Accounts :
    (env : Env) (vn : VpsieNode) → vn.spec.vpsie_instance_id ≡ 0 → Accounts vn (create_vps env vn)
unfolding create_vps remembered
create_vps-Accounts env vn h = ground (
  arith,
  await_discovery-requested env.discovery env vn,
  remembered_of_neither vn,
  request_slave-Accounts env vn,
)

pub provision-Accounts : (env : Env) (vn : VpsieNode) → Accounts vn (provision env vn)
unfolding provision
provision-Accounts env vn =
    ground (arith, create_vps-Accounts env vn, check_vps_status-Accounts env vn)
