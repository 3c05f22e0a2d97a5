-- ===== src/Runtime/Jwt/Tests.antt =====
-- services/_runtime/jwt_service.py: a rotated secret, a cached token and a revoked one.
use cyber_security_alert_tri.Common.{
  String, Bool, true, false, Option, none, some, [], ◌∷◌, ◌≡◌, refl, arith,
}
use cyber_security_alert_tri.Samples.{alice, library, service, nobody}
use cyber_security_alert_tri.Effects.{ok, raised, jwt_error}
use cyber_security_alert_tri.Runtime.Jwt.{
  SecretBundle, Cache, CacheEntry, verify, mint, minted_claims, to_auth, cache_get, is_revoked,
  maybe_evict, insert_sorted, sort_by_expiry, drop_first, unexpired,
}
use cyber_security_alert_tri.Runtime.Jwt.Verify.{
  IsCache, Sound, verify-Sound, verify-revoked_then_outage,
}

abbrev before_rotation : SecretBundle
before_rotation = record { audience = "worker"; current = "old"; previous = none }

abbrev after_rotation : SecretBundle
after_rotation = record { audience = "worker"; current = "new"; previous = some "old" }

abbrev alice_entry : CacheEntry
alice_entry = record { payload = alice; audience = "worker"; expires_at = 1300 }

abbrev one_token : Cache
one_token = ("token-old", alice_entry) ∷ []

one_token-IsCache : IsCache library service one_token
one_token-IsCache = record {
  entries = (record { audience = refl; claims_complete = refl; claims_audience = refl }, tt);
  bounded = omega arith;
}

-- The claims that `mint` signs for the user.
minted_alice : minted_claims library service 1000 "j-1" "alice" "acme" "worker" none ≡ alice
unfolding minted_claims
minted_alice = refl

-- A full cache with no expired entry loses its oldest quarter.
full_cache :
    maybe_evict 4 1000 (
      ("b", record alice_entry { expires_at = 1200 })
      ∷ ("a", record alice_entry { expires_at = 1100 })
      ∷ ("c", alice_entry)
      ∷ ("d", alice_entry)
      ∷ [])
    ≡ ("b", record alice_entry { expires_at = 1200 }) ∷ ("c", alice_entry) ∷ ("d", alice_entry) ∷ []
unfolding maybe_evict unexpired sort_by_expiry insert_sorted drop_first
full_cache = refl

verify-Sound_example :
    Sound library service nobody
      (verify library service after_rotation nobody 1100 "token-old" one_token).0
    × IsCache library service
        (verify library service after_rotation nobody 1100 "token-old" one_token).1
verify-Sound_example =
    verify-Sound library service after_rotation nobody 1100 "token-old" one_token (omega arith)
      one_token-IsCache

minted_token :
    mint library service before_rotation 1000 "j-1" "alice" "acme" "worker" none ≡ ok "token-old"
unfolding mint
minted_token = refl

decoded_token :
    let p = minted_claims library service 1000 "j-1" "alice" "acme" "worker" none in
    library.decode (library.encode p "old") "old" "worker" 30 1100 ≡ some p
unfolding minted_claims
decoded_token = refl

not_cached : cache_get "token-old" [] ≡ none
unfolding cache_get
not_cached = refl

not_denied : is_revoked nobody (some "j-1") ≡ false
unfolding is_revoked
not_denied = refl

cached_alice : cache_get "token-old" one_token ≡ some alice_entry
unfolding cache_get
cached_alice = refl

verify-revoked_then_outage_example :
    let check : String → Option Bool = λ jti. some true in
    let after = verify library service after_rotation (some check) 1100 "token-old" one_token in
    (after.0 ≡ raised jwt_error)
    × ((verify library service after_rotation (some (λ _. none)) 1100 "token-old" after.1).0
        ≡ ok (to_auth alice "worker"))
verify-revoked_then_outage_example =
    verify-revoked_then_outage library service after_rotation (λ jti. some true) 1100 "token-old"
      "j-1" alice_entry one_token cached_alice (omega arith) refl refl refl refl
