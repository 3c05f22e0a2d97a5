-- ===== src/Runtime/Secrets/Rotation.antt =====
-- services/_runtime/secret_store.py and services/_runtime/jwt_service.py: tokens over a rotation.
use cyber_security_alert_tri.Common.{
  ℕ, String, false, Option, none, some, [], ◌∷◌, ◌≡◌, refl, ◌∙◌, ap, arith, ◌==◌, eq_iff, eq_refl,
  if◌then◌else◌,
}
use cyber_security_alert_tri.Effects.{ok}
use cyber_security_alert_tri.Runtime.Jwt.{
  JwtLibrary, Service, SecretBundle, Cache, DenyList, cache_get, is_revoked, verify, mint,
  minted_claims,
}
use cyber_security_alert_tri.Runtime.Jwt.Verify.{verify-mint_rotated}
use cyber_security_alert_tri.Runtime.Secrets.{
  Bundles, find_bundle, put_bundle, get_bundle, rotate, current_of, bundle_or_error,
}

find-put :
    (a k : String) (b : SecretBundle) (bs : Bundles)
    → find_bundle k (put_bundle a b bs) ≡ (if a == k then some b else find_bundle k bs)
unfolding find_bundle put_bundle
find-put a k b [] = refl
find-put a k b ((j, c) ∷ bs) = ground (arith, find-put a k b bs, eq_iff j a, eq_iff j k, eq_iff a k)

get-rotate :
    (secret a k : String) (bs : Bundles)
    → get_bundle k (rotate secret a bs).1
      ≡ (if a == k then ok (rotate secret a bs).0 else get_bundle k bs)
unfolding get_bundle rotate
get-rotate secret a k bs =
    ap bundle_or_error (find-put a k (rotate secret a bs).0 bs) ∙ ground arith

-- After a rotation `get_bundle` gives the new bundle, which has the new secret and keeps the secret that
-- was current before as the previous one; the bundles of the other audiences are as before.
pub get_bundle-rotate :
    (secret audience : String) (bs : Bundles)
    → (get_bundle audience (rotate secret audience bs).1
        ≡ ok (record {
          audience = audience;
          current = secret;
          previous = current_of (find_bundle audience bs);
        }))
      × ((other : String)
          → (audience == other) ≡ false
          → get_bundle other (rotate secret audience bs).1 ≡ get_bundle other bs)
get_bundle-rotate secret audience bs = (
  get-rotate secret audience audience bs ∙ (unfold rotate in ground (arith, eq_refl audience)),
  λ other h. get-rotate secret audience other bs ∙ ground arith,
)

find-get :
    (k : String) (bs : Bundles) (b : SecretBundle)
    → get_bundle k bs ≡ ok b
    → current_of (find_bundle k bs) ≡ some b.current
unfolding get_bundle
find-get k bs b h = ground arith

module _ (lib : JwtLibrary) (svc : Service) where
  -- A token minted with the bundle of the store verifies with the bundle that the store gives after a
  -- rotation, and gives the tenant, subject and role that it was minted for. This assumes that PyJWT
  -- refuses it under the new secret and decodes what it encoded under the old one, and that neither a
  -- cached entry nor the deny-list stands in the way.
  pub verify-mint-rotate :
      (bs : Bundles) (old : SecretBundle) (secret : String) (deny : DenyList) (minted now : ℕ)
      (jti subject tenant token : String) (role : Option String) (c : Cache)
      → get_bundle svc.audience bs ≡ ok old
      → mint lib svc old minted jti subject tenant svc.audience role ≡ ok token
      → (old.current == "") ≡ false
      → lib.decode token secret svc.audience svc.leeway now ≡ none
      → (let p = minted_claims lib svc minted jti subject tenant svc.audience role in
          lib.decode (lib.encode p old.current) old.current svc.audience svc.leeway now ≡ some p)
      → cache_get token c ≡ none
      → is_revoked deny (some jti) ≡ false
      → (new : SecretBundle) × (get_bundle svc.audience (rotate secret svc.audience bs).1 ≡ ok new)
        × ((verify lib svc new deny now token c).0
            ≡ ok (record {
              user_id = some subject;
              tenant_id = some tenant;
              audience = svc.audience;
              role = role;
              jti = some jti;
            }))
  verify-mint-rotate bs old secret deny minted now jti subject tenant token role c held m nonempty
        refuses decodes miss fine =
      let new : SecretBundle = record {
        audience = svc.audience;
        current = secret;
        previous = current_of (find_bundle svc.audience bs);
      } in
      (
        new,
        (get_bundle-rotate secret svc.audience bs).0,
        verify-mint_rotated lib svc old new deny minted now jti subject tenant token role c m
            nonempty (find-get svc.audience bs old held) refuses decodes miss fine,
      )
