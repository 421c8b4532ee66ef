-- ===== src/Auth/Sound.antt =====
-- Which requests `Authenticate` of internal/auth/authenticator.go lets in.
use Prim.Native.String.{◌++◌ as concat}
use text.Mathlib.TextLemmas.{append-eq-nil_iff, append_assoc, nil-append, cons-append}
use llmapi_gate_way.Common.{
  String, ◌≡◌, refl, sym, ap, ◌∙◌, ◌↔◌, inl, inr, true, false, none, some, List, [], ◌∷◌, ◌==◌,
  eq_iff, eq_false_of_ne, ne_of_eq_false, some_inj, Bool-cases, Option-cases,
}
use llmapi_gate_way.Common.Result.{Result, done, Result-cases, done_inj}
use llmapi_gate_way.Common.Split.{
  split_spaces, LacksSpace, split_from-append, split_from-LacksSpace, split_from-two,
}
use llmapi_gate_way.Auth.Keys.{
  ApiKey, AuthContext, KeyStore, bearer, redis_key, verify, authenticate,
}

bearer-some : (ps : List String) (b : String) → bearer ps ≡ some b → ps ≡ "Bearer" ∷ b ∷ []
unfolding bearer
bearer-some [] b h = absurd (cc h)
bearer-some (x ∷ []) b h = absurd (cc h)
bearer-some (x ∷ y ∷ []) b h = elim (Bool-cases (x == "Bearer")) [
  | inl same ↦ rw ((eq_iff x "Bearer").0 same, some_inj (rw (same, bearer) at h)) refl
  | inr other ↦ absurd (cc (rw (other, bearer) at h))
]
bearer-some (x ∷ y ∷ z ∷ rest) b h = absurd (cc h)

header-parts :
    (key : String) → LacksSpace key → split_spaces (concat "Bearer " key) ≡ "Bearer" ∷ key ∷ []
header-parts key h =
    let spaced : concat "Bearer " key ≡ concat "Bearer" (String.◌∷◌ " " key) =
      append_assoc "Bearer" " " key
      ∙ ap (concat "Bearer") (cons-append " " "" key ∙ ap (String.◌∷◌ " ") (nil-append key)) in
    rw
      (
        spaced,
        split_from-append "" "Bearer" key (refl, (refl, (refl, (refl, (refl, (refl, tt)))))),
        split_from-LacksSpace "" key h,
        nil-append key,
        nil-append "Bearer",
      )
      refl

header-ne-nil : (key : String) → (concat "Bearer " key == "") ≡ false
header-ne-nil key =
    eq_false_of_ne (concat "Bearer " key) ""
      (λ h. ne_of_eq_false "Bearer " "" refl ((append-eq-nil_iff.0 h).0))

module _ {S : Type 0} (store : KeyStore S) (hash : String → String)
    (parse : String → Result String ApiKey) where
  -- The header is the scheme, a space, and a key without spaces; the store has a record for the key,
  -- and it is active and names the user and the app.
  abbrev pub Granted : S → String → AuthContext → Type 0
  Granted s header ctx =
      (stored : String) × (k : ApiKey) × (header ≡ concat "Bearer " ctx.api_key)
      × LacksSpace ctx.api_key
      × (store.get s (redis_key store hash ctx.api_key) ≡ done (some stored))
      × (parse stored ≡ done k)
      × (k.status ≡ "active")
      × (ctx.user_id ≡ k.user_id)
      × (ctx.app_id ≡ k.app_id)

  pub authenticate-verify :
      (s : S) (key : String)
      → LacksSpace key
      → authenticate store hash parse s (concat "Bearer " key) ≡ verify store hash parse s key
  unfolding authenticate bearer
  authenticate-verify s key h = rw (header-ne-nil key, authenticate, header-parts key h) refl

  -- A header that is let through to the store is the scheme, a space and a key without spaces.
  header-bearer :
      (header key : String)
      → bearer (split_spaces header) ≡ some key
      → (header ≡ concat "Bearer " key) × LacksSpace key
  header-bearer header key h =
      let (e, lacks) =
        split_from-two "" header "Bearer" key (bearer-some (split_spaces header) key h) in
      (sym (nil-append header) ∙ e ∙ sym (append_assoc "Bearer" " " key), lacks)

  verify-done :
      (s : S) (header key : String) (ctx : AuthContext)
      → header ≡ concat "Bearer " key
      → LacksSpace key
      → verify store hash parse s key ≡ done ctx
      → Granted s header ctx
  unfolding verify
  verify-done s header key ctx spelled lacks h =
      elim (Result-cases (store.get s (redis_key store hash key))) [
        | inr (e, he) ↦ absurd (cc (rw (he, verify) at h))
        | inl (none, hg) ↦ absurd (cc (rw (hg, verify) at h))
        | inl (some stored, hg) ↦ elim (Result-cases (parse stored)) [
          | inr (e, he) ↦ absurd (cc (rw (hg, verify, he) at h))
          | inl (k, hp) ↦ elim (Bool-cases (k.status == "active")) [
            | inr off ↦ absurd (cc (rw (hg, verify, hp, off) at h))
            | inl active ↦
                let given : ◌≡◌ {A = AuthContext}
                    (record { api_key = key; user_id = k.user_id; app_id = k.app_id }) ctx =
                  done_inj (rw (hg, verify, hp, active) at h) in
                rw (sym given) (
                  stored,
                  k,
                  spelled,
                  lacks,
                  hg,
                  hp,
                  (eq_iff k.status "active").0 active,
                  refl,
                  refl,
                )
          ]
        ]
      ]

  -- Authenticate succeeds only for a granted header.
  pub authenticate-Granted :
      (s : S) (header : String) (ctx : AuthContext)
      → (authenticate store hash parse s header ≡ done ctx) ↔ Granted s header ctx
  unfolding authenticate verify
  authenticate-Granted s header ctx = (
    (λ h. elim (Bool-cases (header == "")) [
      | inl empty ↦ absurd (cc (rw (empty, authenticate) at h))
      | inr sent ↦ elim (Option-cases (bearer (split_spaces header))) [
        | inl none_ ↦ absurd (cc (rw (sent, authenticate, none_) at h))
        | inr (key, hb) ↦
            let (spelled, lacks) = header-bearer header key hb in
            verify-done s header key ctx spelled lacks (rw (sent, authenticate, hb) at h)
      ]
    ]),
    (λ g.
        let (stored, k, spelled, lacks, hg, hp, active, user, app) = g in
        let on : (k.status == "active") ≡ true = (eq_iff k.status "active").1 active in
        rw (spelled, authenticate-verify s ctx.api_key lacks, hg, verify, hp, on, sym user, sym app)
          refl),
  )
