-- ===== src/Auth/Keys.antt =====
-- internal/auth/authenticator.go and types.go. Redis, the JSON decoder, SHA-256 (as the hexadecimal
-- text that `hashAPIKey` makes) and the random bytes of a new key are arguments.
use Prim.Native.String.{◌++◌ as concat}
use llmapi_gate_way.Common.{
  ℕ, ◌/◌, ◌%◌, String, ◌≡◌, ◌≢◌, true, false, Option, none, some, List, [], ◌∷◌, ◌==◌,
  if◌then◌else◌, get_elem?,
}
use llmapi_gate_way.Common.Time.{Time}
use llmapi_gate_way.Common.Split.{split_spaces}
use llmapi_gate_way.Common.Result.{Result, done, failed}

-- The field `id` and the times are not read by the program.
pub record ApiKey : Type 0 where
  pub id : String
  pub key_hash : String
  pub user_id : String
  pub app_id : String
  pub status : String
  pub created_at : Time
  pub updated_at : Time

pub record AuthContext : Type 0 where
  pub api_key : String
  pub user_id : String
  pub app_id : String

pub record AuthError : Type 0 where
  pub code : String
  pub message : String

-- The error of `Authenticate`: an `AuthError`, or the error of Redis or of the decoder as it is.
pub data AuthFailure : Type 0 where
  denied : AuthError → AuthFailure
  store_failed : String → AuthFailure
  parse_failed : String → AuthFailure

abbrev pub missing_auth : AuthError
missing_auth = record { code = "missing_auth"; message = "Missing Authorization header" }

abbrev pub invalid_auth_format : AuthError
invalid_auth_format = record {
  code = "invalid_auth_format";
  message = "Invalid Authorization header format";
}

abbrev pub invalid_api_key : AuthError
invalid_api_key = record { code = "invalid_api_key"; message = "Invalid API key" }

abbrev pub inactive_api_key : AuthError
inactive_api_key = record { code = "inactive_api_key"; message = "API key is not active" }

-- GET, SET without expiry and DEL of Redis; a missing key is none.
pub record KeyStore (S : Type 0) : Type 0 where
  pub get : S → String → Result String (Option String)
  pub set : S → String → String → Result String S
  pub del : S → String → Result String S

-- The documented behaviour of these commands.
pub record KeyStoreLaws {S : Type 0} (store : KeyStore S) : Type 0 where
  pub get-set :
      (s s' : S) (k v : String) → store.set s k v ≡ done s' → store.get s' k ≡ done (some v)
  pub get-set_other :
      (s s' : S) (k v other : String)
      → k ≢ other
      → store.set s k v ≡ done s'
      → store.get s' other ≡ store.get s other
  pub get-del : (s s' : S) (k : String) → store.del s k ≡ done s' → store.get s' k ≡ done none
  pub get-del_other :
      (s s' : S) (k other : String)
      → k ≢ other
      → store.del s k ≡ done s'
      → store.get s' other ≡ store.get s other

-- The parts of a header, if there are two and the first is the scheme.
unfoldable pub bearer : List String → Option String
bearer [] = none
bearer (a ∷ []) = none
bearer (a ∷ b ∷ []) = if a == "Bearer" then some b else none
bearer (a ∷ b ∷ c ∷ rest) = none

abbrev pub hex_digits : List String
hex_digits =
    "0" ∷ "1" ∷ "2" ∷ "3" ∷ "4" ∷ "5" ∷ "6" ∷ "7" ∷ "8" ∷ "9" ∷ "a" ∷ "b" ∷ "c" ∷ "d" ∷ "e" ∷ "f"
    ∷ []

abbrev pub text_of : Option String → String
text_of none = ""
text_of (some t) = t

-- `hex.EncodeToString`
unfoldable pub hex : List ℕ → String
hex [] = ""
hex (b ∷ bs) =
    concat (text_of (get_elem? hex_digits (b / 16)))
      (concat (text_of (get_elem? hex_digits (b % 16))) (hex bs))

-- `generateAPIKey`, from its 24 random bytes.
unfoldable pub generate_api_key : List ℕ → String
generate_api_key random = concat "sk-" (hex random)

-- `fmt.Sprintf` of the stored record: the ids are put between quotes as they are.
unfoldable pub record_text : String → String → String → String
record_text key_hash user_id app_id = concat "{\"id\":\"" (
    concat key_hash (
      concat "\",\"key_hash\":\"" (
        concat key_hash (
          concat "\",\"user_id\":\"" (
            concat user_id
              (concat "\",\"app_id\":\"" (concat app_id "\",\"status\":\"active\"}")))))))

module _ {S : Type 0} (store : KeyStore S) (hash : String → String) where
  abbrev pub redis_key : String → String
  redis_key api_key = concat "apikey:" (hash api_key)

  -- `Authenticate` once the key is cut out of the header.
  unfoldable pub verify :
      (String → Result String ApiKey) → S → String → Result AuthFailure AuthContext
  verify parse s api_key = elim (store.get s (redis_key api_key)) [
    | failed e ↦ failed (store_failed e)
    | done none ↦ failed (denied invalid_api_key)
    | done (some stored) ↦ elim (parse stored) [
      | failed e ↦ failed (parse_failed e)
      | done k ↦
          if k.status == "active"
          then done (record { api_key = api_key; user_id = k.user_id; app_id = k.app_id })
          else failed (denied inactive_api_key)
    ]
  ]

  unfoldable pub authenticate :
      (String → Result String ApiKey) → S → String → Result AuthFailure AuthContext
  authenticate parse s auth_header = elim (auth_header == "") [
    | true ↦ failed (denied missing_auth)
    | false ↦ elim (bearer (split_spaces auth_header)) [
      | none ↦ failed (denied invalid_auth_format)
      | some api_key ↦ verify parse s api_key
    ]
  ]

  unfoldable pub create_api_key : List ℕ → S → String → String → S × Result AuthFailure String
  create_api_key random s user_id app_id =
      let api_key = generate_api_key random in
      elim (store.set s (redis_key api_key) (record_text (hash api_key) user_id app_id)) [
        | failed e ↦ (s, failed (store_failed e))
        | done s' ↦ (s', done api_key)
      ]

  unfoldable pub revoke_api_key : S → String → S × Result AuthFailure (Unit {0})
  revoke_api_key s api_key = elim (store.del s (redis_key api_key)) [
    | failed e ↦ (s, failed (store_failed e))
    | done s' ↦ (s', done tt)
  ]
