-- ===== src/Webhook/Patterns.antt =====
-- pkg/webhook: the patterns of the validators.
use vpsie_k8s_autoscaler.Prelude.{ℕ, List, [], ◌∷◌}
use vpsie_k8s_autoscaler.Webhook.Regex.{Regex, empty, one_of, seq, alt, many}

abbrev pub plus : Regex → Regex
plus r = seq r (many r)

abbrev pub optional : Regex → Regex
optional r = alt r empty

abbrev pub char : ℕ → Regex
char c = one_of ((c, c) ∷ [])

abbrev pub dash : ℕ × ℕ
dash = (45, 45)

abbrev pub dot : ℕ × ℕ
dot = (46, 46)

abbrev pub underscore : ℕ × ℕ
underscore = (95, 95)

abbrev pub digits : ℕ × ℕ
digits = (48, 57)

abbrev pub lower_letters : ℕ × ℕ
lower_letters = (97, 122)

-- `a-zA-Z0-9`
abbrev pub alphanumeric : List (ℕ × ℕ)
alphanumeric = lower_letters ∷ (65, 90) ∷ digits ∷ []

-- `^[a-zA-Z0-9_-]+$`, of data centers and SSH keys.
abbrev pub valid_datacenter : Regex
valid_datacenter = plus (one_of (underscore ∷ dash ∷ alphanumeric))

-- `^[a-zA-Z0-9-]+$`, of offerings and instance types.
abbrev pub valid_offering_id : Regex
valid_offering_id = plus (one_of (dash ∷ alphanumeric))

-- `^[a-zA-Z0-9_.-]+$`
abbrev pub valid_os_image : Regex
valid_os_image = plus (one_of (underscore ∷ dot ∷ dash ∷ alphanumeric))

-- `(0|[1-9]\d*)`
abbrev pub number : Regex
number = alt (char 48) (seq (one_of ((49, 57) ∷ [])) (many (one_of (digits ∷ []))))

-- `[a-zA-Z0-9.-]+` behind this character, or nothing.
abbrev pub suffix : ℕ → Regex
suffix c = optional (seq (char c) (plus (one_of (dot ∷ dash ∷ alphanumeric))))

-- `^v(0|[1-9]\d*)\.(0|[1-9]\d*)\.(0|[1-9]\d*)(-[a-zA-Z0-9.-]+)?(\+[a-zA-Z0-9.-]+)?$`
abbrev pub valid_kubernetes_version : Regex
valid_kubernetes_version = seq (char 118) (
    seq number
      (seq (char 46) (seq number (seq (char 46) (seq number (seq (suffix 45) (suffix 43)))))))

-- A text of these characters that starts and ends with one of those.
abbrev pub bounded_by : (ends middle : List (ℕ × ℕ)) → Regex
bounded_by ends middle = seq (one_of ends) (optional (seq (many (one_of middle)) (one_of ends)))

-- `^[a-zA-Z0-9]([a-zA-Z0-9-_.]*[a-zA-Z0-9])?$`
abbrev pub label_value : Regex
label_value = bounded_by alphanumeric (dash ∷ underscore ∷ dot ∷ alphanumeric)

-- The same, with one more such text and a slash before it or not.
abbrev pub label_key : Regex
label_key = seq (optional (seq label_value (char 47))) label_value

-- `[a-z0-9]([-a-z0-9]*[a-z0-9])?`
abbrev pub dns_label : Regex
dns_label = bounded_by (lower_letters ∷ digits ∷ []) (dash ∷ lower_letters ∷ digits ∷ [])

-- One or more of them, with dots between them.
abbrev pub valid_node_group_name : Regex
valid_node_group_name = seq dns_label (many (seq (char 46) dns_label))
