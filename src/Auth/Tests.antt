-- ===== src/Auth/Tests.antt =====
-- A key store in memory, and runs of the operations on it.
use Prim.Native.String.{◌++◌ as concat}
use llmapi_gate_way.Common.{
  String, ◌≡◌, refl, ◌↔◌, [], ◌∷◌, ◌==◌, eq_refl, eq_false_of_ne, if◌then◌else◌,
}
use llmapi_gate_way.Common.Assoc.{
  Assoc, lookup, insert, delete, lookup-delete, lookup-insert_self, lookup-insert_ne,
}
use llmapi_gate_way.Common.Time.{zero_time}
use llmapi_gate_way.Common.Result.{Result, done, failed, done_inj}
use llmapi_gate_way.Common.Split.{split_from}
use llmapi_gate_way.Auth.Keys.{
  ApiKey, AuthContext, AuthFailure, denied, invalid_auth_format, KeyStore, KeyStoreLaws, bearer,
  authenticate,
}
use llmapi_gate_way.Auth.Sound.{Granted, authenticate-Granted}

abbrev pub memory : KeyStore (Assoc String)
memory = record {
  get = λ s k. done (lookup k s);
  set = λ s k v. done (insert k v s);
  del = λ s k. done (delete k s);
}

pub memory-KeyStoreLaws : KeyStoreLaws memory
memory-KeyStoreLaws = record {
  get-set = λ s s' k v e. rw (← done_inj e, lookup-insert_self k v s) refl;
  get-set_other = λ s s' k v other differs e.
      rw (← done_inj e, lookup-insert_ne k other v s (eq_false_of_ne k other differs)) refl;
  get-del = λ s s' k e. rw (← done_inj e, lookup-delete k k s, eq_refl k) refl;
  get-del_other = λ s s' k other differs e.
      rw (← done_inj e, lookup-delete k other s, eq_false_of_ne k other differs) refl;
}

abbrev pub marked : String → String
marked t = concat "#" t

abbrev pub ada : ApiKey
ada = record {
  id = "#sk-0a";
  key_hash = "#sk-0a";
  user_id = "ada";
  app_id = "desk";
  status = "active";
  created_at = zero_time;
  updated_at = zero_time;
}

abbrev pub ada_text : String
ada_text =
    "{\"id\":\"#sk-0a\",\"key_hash\":\"#sk-0a\",\"user_id\":\"ada\",\"app_id\":\"desk\",\"status\":\"active\"}"

abbrev pub decoded : String → Result String ApiKey
decoded t = if t == ada_text then done ada else failed "unexpected end of JSON input"

abbrev pub held : Assoc String
held = ("apikey:#sk-0a", ada_text) ∷ []

abbrev granted : AuthContext
granted = record { api_key = "sk-0a"; user_id = "ada"; app_id = "desk" }

abbrev pub revoked : Result AuthFailure (Unit {0})
revoked = done tt

spaced_key :
    authenticate memory marked decoded held "Bearer sk-0a " ≡ failed (denied invalid_auth_format)
unfolding authenticate bearer split_from
spaced_key = refl

authenticate-Granted_example :
    (authenticate memory marked decoded held "Bearer sk-0a" ≡ done granted)
    ↔ Granted memory marked decoded held "Bearer sk-0a" granted
authenticate-Granted_example =
    authenticate-Granted memory marked decoded held "Bearer sk-0a" granted
