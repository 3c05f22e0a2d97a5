-- ===== src/Runtime/Secrets/Tests.antt =====
-- services/_runtime/secret_store.py: a rotation of one secret out of two.
use cyber_security_alert_tri.Common.{false, none, some, [], ◌∷◌, ◌≡◌, refl}
use cyber_security_alert_tri.Effects.{ok, raised, key_error}
use cyber_security_alert_tri.Runtime.Jwt.{
  SecretBundle, minted_claims, verify, mint, cache_get, is_revoked,
}
use cyber_security_alert_tri.Runtime.Secrets.{
  Bundles, find_bundle, put_bundle, seeded, get_bundle, rotate,
}
use cyber_security_alert_tri.Runtime.Secrets.Rotation.{verify-mint-rotate}
use cyber_security_alert_tri.Samples.{library, service, nobody}

abbrev worker_bundle : SecretBundle
worker_bundle = record { audience = "worker"; current = "old"; previous = none }

abbrev bundles : Bundles
bundles =
    ("worker", worker_bundle)
    ∷ ("ingest", record { audience = "ingest"; current = "other"; previous = none })
    ∷ []

seeded-bundles : seeded (("worker", "old") ∷ ("ingest", "other") ∷ []) [] ≡ bundles
unfolding seeded put_bundle
seeded-bundles = refl

unknown_audience : get_bundle "gateway" bundles ≡ raised key_error
unfolding get_bundle find_bundle
unknown_audience = refl

held : get_bundle "worker" bundles ≡ ok worker_bundle
unfolding get_bundle find_bundle
held = refl

minted_token :
    mint library service worker_bundle 1000 "j-1" "alice" "acme" "worker" none ≡ ok "token-old"
unfolding mint
minted_token = refl

decoded_token :
    let p = minted_claims library service 1000 "j-1" "alice" "acme" "worker" none in
    library.decode (library.encode p "old") "old" "worker" 30 1100 ≡ some p
unfolding minted_claims
decoded_token = refl

not_cached : cache_get "token-old" [] ≡ none
unfolding cache_get
not_cached = refl

not_denied : is_revoked nobody (some "j-1") ≡ false
unfolding is_revoked
not_denied = refl

verify-mint-rotate_example :
    (new : SecretBundle) × (get_bundle "worker" (rotate "new" "worker" bundles).1 ≡ ok new)
    × ((verify library service new nobody 1100 "token-old" []).0
        ≡ ok (record {
          user_id = some "alice";
          tenant_id = some "acme";
          audience = "worker";
          role = none;
          jti = some "j-1";
        }))
verify-mint-rotate_example =
    verify-mint-rotate library service bundles worker_bundle "new" nobody 1000 1100 "j-1" "alice"
      "acme" "token-old" none [] held minted_token refl refl decoded_token not_cached not_denied
