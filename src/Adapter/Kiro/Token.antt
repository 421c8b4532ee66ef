-- ===== src/Adapter/Kiro/Token.antt =====
-- The life of a token of `KiroTokenManager` in internal/adapter/kiro.go.
use text.Mathlib.TextLemmas.{append-eq-nil_iff}
use llmapi_gate_way.Common.Decimal.{decimal}
use llmapi_gate_way.Common.{
  ℕ, ◌+◌, ◌*◌, ◌≤◌, ◌<◌, String, ◌≡◌, refl, ◌≢◌, true, false, List, [], ◌∷◌, arith, ◌==◌,
  eq_false_of_ne, lt→ltb, All,
}
use llmapi_gate_way.Common.Time.{at, second, unix}
use llmapi_gate_way.Adapter.Types.{Clock}
use llmapi_gate_way.Adapter.Kiro.{KiroTokenManager, is_valid, token_at, get_valid_token}

-- A sequence of calls.
abbrev pub calls : List Clock → KiroTokenManager → KiroTokenManager
calls [] tm = tm
calls (c ∷ cs) tm = calls cs (get_valid_token c tm).0

-- All calls of the list are made before the time.
abbrev pub AllBefore : ℕ → List Clock → Type 0
AllBefore t = All λ c. c.first < t

kept :
    (clock : Clock) (tm : KiroTokenManager)
    → is_valid clock.first tm ≡ true
    → get_valid_token clock tm ≡ (tm, tm.token)
unfolding get_valid_token
kept clock tm valid = rw (get_valid_token, valid) refl

-- The manager after a call that makes a token.
abbrev fresh : Clock → KiroTokenManager → KiroTokenManager
fresh clock tm = record tm {
  token = token_at clock.second_reading;
  token_expiry = at (clock.third + 3600 * second);
}

renewed :
    (clock : Clock) (tm : KiroTokenManager)
    → is_valid clock.first tm ≡ false
    → get_valid_token clock tm ≡ (fresh clock tm, token_at clock.second_reading)
unfolding get_valid_token
renewed clock tm stale = rw (get_valid_token, stale) refl

token_at-nonempty : (now : ℕ) → (token_at now == "") ≡ false
token_at-nonempty now =
    eq_false_of_ne (token_at now) ""
      λ e. absurd (starts ((append-eq-nil_iff {p = "kiro_token_"} {q = decimal (unix now)}).0 e).0)
  where
    starts : ◌≢◌ {A = String} "kiro_token_" ""
    starts e = cc

fresh-valid :
    (clock : Clock) (tm : KiroTokenManager) (now : ℕ)
    → now < clock.third + 3600 * second
    → is_valid now (fresh clock tm) ≡ true
fresh-valid clock tm now h =
    rw (token_at-nonempty clock.second_reading, lt→ltb now (clock.third + 3600 * second) h) refl

kept_through :
    (made : Clock) (tm : KiroTokenManager) (cs : List Clock)
    → AllBefore (made.third + 3600 * second) cs
    → calls cs (fresh made tm) ≡ fresh made tm
kept_through made tm [] h = refl
kept_through made tm (c ∷ cs) h =
    rw (calls, kept c (fresh made tm) (fresh-valid made tm c.first h.0))
      (kept_through made tm cs h.1)

-- A token lives for an hour: where the manager has no token, or one that has expired, a call makes
-- one that holds the time in seconds, and every later call in the hour after its last clock reading
-- gives the same token and changes nothing.
pub get_valid_token-hour :
    (made later : Clock) (tm : KiroTokenManager) (between : List Clock)
    → is_valid made.first tm ≡ false
    → AllBefore (made.third + 3600 * second) between
    → later.first < made.third + 3600 * second
    → ((get_valid_token made tm).1 ≡ token_at made.second_reading)
      × (get_valid_token later (calls between (get_valid_token made tm).0)
          ≡ ((get_valid_token made tm).0, token_at made.second_reading))
get_valid_token-hour made later tm between stale through h = rw (renewed made tm stale) (
  refl,
  rw (kept_through made tm between through)
      (kept later (fresh made tm) (fresh-valid made tm later.first h)),
)

-- From its expiry on, a token is no longer used: the call makes a new one, which is valid for an
-- hour.
pub get_valid_token-expired :
    (clock : Clock) (tm : KiroTokenManager) (expiry : ℕ)
    → tm.token_expiry ≡ at expiry
    → expiry ≤ clock.first
    → ((get_valid_token clock tm).1 ≡ token_at clock.second_reading)
      × ((get_valid_token clock tm).0.token_expiry ≡ at (clock.third + 3600 * second))
get_valid_token-expired clock tm expiry e h = rw (renewed clock tm stale) (refl, refl)
  where
    stale : is_valid clock.first tm ≡ false
    stale = rw e (ground arith)
