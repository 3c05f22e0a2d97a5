-- ===== src/Connectors/Falcon/Token.antt =====
-- agents/tools/crowdstrike_tool.py: how long a token is used.
use cyber_security_alert_tri.Common.{
  ℕ, ◌+◌, ◌<◌, true, Option, none, some, ◌≡◌, refl, ap, ◌∙◌, arith, ltb, if_both,
}
use cyber_security_alert_tri.Json.{Json, Fields, int}
use cyber_security_alert_tri.Ingest.Parsers.{as_fields, get_or}
use cyber_security_alert_tri.Effects.{Exec, Result, ok, raised, continue, ◌>>=◌, pure}
use cyber_security_alert_tri.Connectors.{Http, lift, subscript}
use cyber_security_alert_tri.Connectors.Falcon.{
  Falcon, FalconSettings, cached_token, later, store_token, store_expiry, token_request,
  keep_expiry, keep_token, fetch_token, get_token,
}

-- What holds after `m`, where it gives an answer.
abbrev After : {S A : Type 0} → (A → S → Type 0) → Result A × S → Type 0
After {S} {A} P out = (a : A) → out.0 ≡ ok a → P a out.1

ok_injective : {x y : Json} → ◌≡◌ {A = Result Json} (ok x) (ok y) → x ≡ y
ok_injective h = grind arith

After-bind :
    {S A B : Type 0} (P : B → S → Type 0) (m : Exec S A) (k : A → Exec S B) (s : S)
    → ((a : A) → After P (k a (m s).1))
    → After P ((m >>= k) s)
After-bind {S} {A} {B} P m k s h = go (m s).0
  where
    go : (r : Result A) → After P (continue r k (m s).1)
    go (ok a) = h a
    go (raised e) = λ b f. absurd (ground (arith, f))

lt_ltb : (a e f : ℕ) → e ≡ f → a < f → ltb a e ≡ true
lt_ltb a e f same left = ground (arith, same, left)

module _ {S : Type 0} (http : Http S) (settings : FalconSettings) where
  abbrev Holds : Json → Falcon S → Type 0
  Holds t w = w.token ≡ some t

  keep_expiry-Holds :
      (now : ℕ) (t : Json) (fields : Fields) (w : Falcon S)
      → w.token ≡ some t
      → After Holds (keep_expiry http now t fields w)
  keep_expiry-Holds now t fields w held =
      After-bind Holds (lift (later http now (get_or "expires_in" (int 1800) fields)))
        (λ expiry. store_expiry http expiry >>= λ _. pure t) w
        (λ expiry.
          After-bind Holds (store_expiry http expiry) (λ _. pure t) w
            (λ _ a h. held ∙ ap some (ok_injective h)))

  keep_token-Holds :
      (now : ℕ) (reply t : Json) (w : Falcon S) → After Holds (keep_token http now reply t w)
  keep_token-Holds now reply t w =
      let w1 : Falcon S = record w { token = some t } in
      After-bind Holds (store_token http t) (λ _. lift (as_fields reply) >>= keep_expiry http now t)
        w
        (λ _.
          After-bind Holds (lift (as_fields reply)) (keep_expiry http now t) w1
            (λ fields. keep_expiry-Holds now t fields w1 refl))

  fetch_token-Holds : (now : ℕ) (w : Falcon S) → After Holds (fetch_token http settings now w)
  fetch_token-Holds now w =
      let sent = token_request http settings in
      let w1 : Falcon S = (sent w).1 in
      After-bind Holds sent _ w (λ resp. After-bind Holds (lift resp.check) _ w1 (λ _.
        After-bind Holds (lift resp.json) _ w1 (λ reply.
          After-bind Holds (lift (subscript "access_token" reply)) (keep_token http now reply) w1
            (λ t. keep_token-Holds now reply t w1))))

  cached_token-some : (o : Option Json) (t : Json) → cached_token o ≡ ok t → o ≡ some t
  cached_token-some (some u) t h = ap some (ok_injective h)
  cached_token-some none t h = absurd (ground (arith, h))

  get_token-Holds : (w : Falcon S) → After Holds (get_token http settings w)
  unfolding get_token
  get_token-Holds w =
      let now = (http.clock w.outside).0 in
      let w1 : Falcon S = record w { outside = (http.clock w.outside).1 } in
      if_both (After Holds) (ltb (now + 30000) w.expires_at) (cached_token w.token, w1)
        (fetch_token http settings now w1) (cached_token-some w.token) (fetch_token-Holds now w1)

  -- Where _get_token gave a token, it gives that token again, from any later state that keeps the token and
  -- its expiry, as long as more than thirty seconds are left of it; nothing is sent then, only the
  -- clock is read.
  pub get_token-reused :
      (before after : Falcon S) (t : Json)
      → (get_token http settings before).0 ≡ ok t
      → after.token ≡ (get_token http settings before).1.token
      → after.expires_at ≡ (get_token http settings before).1.expires_at
      → (http.clock after.outside).0 + 30000 < (get_token http settings before).1.expires_at
      → get_token http settings after
        ≡ (ok t, record after { outside = (http.clock after.outside).1 })
  unfolding get_token
  get_token-reused before after t given token expiry left =
      let held : after.token ≡ some t = token ∙ get_token-Holds before t given in
      let fresh : ltb ((http.clock after.outside).0 + 30000) after.expires_at ≡ true =
        lt_ltb _ _ _ expiry left in
      rw (fresh, held) refl
