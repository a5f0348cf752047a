-- ===== src/Trigger/Input.antt =====
-- What Trigger of internal/handlers/webhook.go reads of a request: internal/services/hmac.go, the
-- token, and buildCommandInput.
use webhook_ui.Common.{
  String, Bool, true, false, ◌||◌, Option, none, some, List, [], ◌∷◌, ◌++◌, ◌==◌, nat_beq,
  string_eq, bytes_eq, if◌then◌else◌, Map, lookup, insert, Bytes, bytes,
}
use webhook_ui.Models.{Hook}
use webhook_ui.Shell.{Env}

pub data Hash : Type 0 where
  sha1 sha256 sha512 : Hash

-- A value of the payload's object, with the text that buildCommandInput passes on for it: of a
-- float64 that of `%v`, of anything else that of json.Marshal.
pub data Value : Type 0 where
  string float64 other : Bytes → Value

-- The packages that the handler uses.
pub record Packages : Type 0 where
  -- strings.ToLower of a name, strings.ToUpper of a text
  pub to_lower : String → String
  pub to_upper : Bytes → Bytes
  -- crypto/hmac with a hash, a key and a message; hex.EncodeToString
  pub mac : Hash → Bytes → Bytes → Bytes
  pub encode_to_string : Bytes → Bytes
  -- textproto.CanonicalMIMEHeaderKey
  pub canonical : String → String
  -- what json.Unmarshal leaves in an empty map
  pub unmarshal : Bytes → Map Bytes Value

pub record Request : Type 0 where
  -- `none` where reading the body fails
  pub body : Option Bytes
  pub headers : Map String (List Bytes)
  pub query : Map Bytes (List Bytes)
  pub client_ip : String

-- The first value of a key, or nothing.
abbrev pub first_value : Option (List Bytes) → Bytes
first_value (some (v ∷ _)) = v
first_value _ = []

abbrev pub get_header : String → Request → Bytes
get_header name req = first_value (lookup name req.headers)

unfoldable pub get_hash : String → Hash
get_hash algorithm =
    if algorithm == "sha1" then sha1 else if algorithm == "sha512" then sha512 else sha256

-- What follows the first `=`.
unfoldable pub after_equals : Bytes → Option Bytes
after_equals [] = none
after_equals (c ∷ s) = let later = after_equals s in if nat_beq c b'=' then some s else later

-- `sig` of Validate.
unfoldable pub digest_of : Bytes → Bytes
unfolding after_equals
digest_of signature = elim (after_equals signature) [ none ↦ signature | some rest ↦ rest ]

unfoldable pub validate :
    Packages → (secret algorithm : String) → (payload signature : Bytes) → Bool
unfolding get_hash digest_of bytes
validate k secret algorithm payload signature =
    if secret == ""
    then true
    else digest_of signature
      == k.encode_to_string (k.mac (get_hash (k.to_lower algorithm)) (bytes secret) payload)

-- The first value of a header, where there is one; then the rest is not asked.
abbrev pub header_or : Option (List Bytes) → Bytes → Bytes
header_or (some (v ∷ _)) rest = v
header_or _ rest = rest

unfoldable pub get_signature_header : Request → Bytes
get_signature_header req = header_or (lookup "X-Hub-Signature-256" req.headers) (
    header_or (lookup "X-Gitlab-Token" req.headers)
      (header_or (lookup "X-Signature" req.headers) []))

-- Each place is asked where those before are empty.
abbrev pub first_sent : Bytes → Bytes → Bytes → Bytes
first_sent (c ∷ s) t u = c ∷ s
first_sent [] (c ∷ t) u = c ∷ t
first_sent [] [] u = u

unfoldable pub sent_token : Request → Bytes
unfolding bytes
sent_token req =
    first_sent (get_header "X-Token" req) (first_value (lookup (bytes "token") req.query))
      (get_header "X-Gitlab-Token" req)

-- strings.Join(v, ",")
unfoldable pub join : List Bytes → Bytes
join [] = []
join (v ∷ []) = v
join (v ∷ w ∷ rest) = v ++ b',' ∷ join (w ∷ rest)

unfoldable pub query_env : Packages → Map Bytes (List Bytes) → Env → Env
unfolding join bytes
query_env k [] env = env
query_env k ((name, values) ∷ rest) env =
    query_env k rest (insert (bytes "QUERY_" ++ k.to_upper name) (join values) env)

-- strings.ReplaceAll(name, "-", "_")
unfoldable pub underscores : Bytes → Bytes
underscores [] = []
underscores (c ∷ s) = (if nat_beq c b'-' then b'_' else c) ∷ underscores s

unfoldable pub header_env : Packages → Request → List String → Env → Env
unfolding underscores bytes
header_env k req [] env = env
header_env k req (name ∷ rest) env = header_env k req rest (
    insert (bytes "HEADER_" ++ k.to_upper (underscores (bytes name)))
      (get_header (k.canonical name) req) env)

abbrev pub text_of : Value → Bytes
text_of (string text) = text
text_of (float64 text) = text
text_of (other text) = text

unfoldable pub field_args : Map Bytes Value → List String → List Bytes
unfolding bytes
field_args payload_data [] = []
field_args payload_data (name ∷ rest) =
    let others = field_args payload_data rest in
    elim (lookup (bytes name) payload_data) [ none ↦ others | some value ↦ text_of value ∷ others ]

abbrev pub is_empty : Bytes → Bool
is_empty [] = true
is_empty (_ ∷ _) = false

unfoldable pub build_command_input : Packages → Hook → Request → Bytes → Env × List Bytes
unfolding query_env header_env field_args bytes
build_command_input k hook req payload =
    let payload_data = if is_empty payload then [] else k.unmarshal payload in
    let env = header_env k req hook.pass_headers (query_env k req.query []) in
    let args = field_args payload_data hook.pass_arguments in
    let both = hook.pass_payload_to == "both" in
    (
      if hook.pass_payload_to == "env" || both then insert (bytes "PAYLOAD") payload env else env,
      if hook.pass_payload_to == "args" || both then args ++ payload ∷ [] else args,
    )
