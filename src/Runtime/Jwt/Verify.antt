-- ===== src/Runtime/Jwt/Verify.antt =====
-- services/_runtime/jwt_service.py: `verify`, after `mint`, a rotation or a revocation.
use mathlib.Core.Path.{subst}
use cyber_security_alert_tri.Common.{
  ℕ, ◌≤◌, ◌<◌, String, Bool, true, false, Option, none, some, [], ◌∷◌, ◌≡◌, refl, ◌∙◌, ap, arith,
  length, ◌==◌, eq_iff, eq_refl, is_some, Bool-cases, inl, inr,
}
use cyber_security_alert_tri.Effects.{Result, ok, raised, jwt_error}
use cyber_security_alert_tri.Runtime.Tenant.{AuthContext}
use cyber_security_alert_tri.Runtime.Jwt.{
  JwtLibrary, Service, SecretBundle, Claims, Cache, CacheEntry, DenyList, cache_get, cache_pop,
  cache_set, maybe_evict, is_revoked, to_auth, complete, same_text, value_or, accept,
  accept_decoded, from_cache, live_entry, verify_with, verify, decode_with_rotation, minted_claims,
  mint, pop_jti,
}
use cyber_security_alert_tri.Runtime.Jwt.Cache.{
  AllEntries, pop_jti-AllEntries, set-AllEntries, evict-AllEntries, length-maybe_evict-lt,
  length-cache_set-le, length-pop_jti-le,
}

module _ (lib : JwtLibrary) (svc : Service) where
  -- An entry of the cache: a complete payload for this service's audience.
  pub record IsVerified (e : CacheEntry) : Type 0 where
    pub audience : e.audience ≡ svc.audience
    pub claims_complete : complete e.payload ≡ true
    pub claims_audience : same_text e.payload.aud svc.audience ≡ true

  -- The cache holds verified entries only, and no more than it may.
  pub record IsCache (c : Cache) : Type 0 where
    pub entries : AllEntries IsVerified c
    pub bounded : length c ≤ svc.max_entries

  -- What a verified token is known to be: for this audience, with a tenant, and not denied.
  abbrev pub Sound : DenyList → Result AuthContext → Type 0
  Sound deny (raised e) = Unit
  Sound deny (ok auth) =
      (auth.audience ≡ svc.audience)
      × (is_some auth.tenant_id ≡ true)
      × (is_revoked deny auth.jti ≡ false)

  abbrev Good : DenyList → Result AuthContext × Cache → Type 0
  Good deny (r, c) = Sound deny r × IsCache c

  tenant_of_complete : (p : Claims) → complete p ≡ true → is_some p.tid ≡ true
  tenant_of_complete p h = ground arith

  pop-IsCache : (k : Option String) (c : Cache) → IsCache c → IsCache (pop_jti k c)
  pop-IsCache k c h = record {
    entries = pop_jti-AllEntries IsVerified k c h.entries;
    bounded = omega (arith, length-pop_jti-le k c, h.bounded);
  }

  store-IsCache :
      (now : ℕ) (token : String) (e : CacheEntry) (c : Cache)
      → 4 ≤ svc.max_entries
      → IsVerified e
      → IsCache c
      → IsCache (cache_set token e (maybe_evict svc.max_entries now c))
  store-IsCache now token e c four v h =
      let kept = maybe_evict svc.max_entries now c in
      record {
        entries =
            set-AllEntries IsVerified token e kept v
              (evict-AllEntries IsVerified svc.max_entries now c h.entries);
        bounded = omega (
          arith,
          length-cache_set-le token e kept,
          length-maybe_evict-lt svc.max_entries now c four h.bounded,
        );
      }

  accept-Good :
      (deny : DenyList) (now : ℕ) (token : String) (p : Claims) (c : Cache)
      → 4 ≤ svc.max_entries
      → IsCache c
      → Good deny (accept lib svc deny now token p c)
  unfolding accept
  accept-Good deny now token p c four h = elim (Bool-cases (same_text p.aud svc.audience)) [
    | inr other ↦ rw other (tt, h)
    | inl same ↦ elim (Bool-cases (complete p)) [
      | inr missing ↦ rw (same, missing) (tt, h)
      | inl whole ↦ elim (Bool-cases (is_revoked deny p.jti)) [
        | inl bad ↦ rw (same, whole, bad) (tt, pop-IsCache p.jti c h)
        | inr fine ↦
            rw (same, whole, fine)
              (
                (refl, tenant_of_complete p whole, fine),
                store-IsCache now token
                    (record { payload = p; audience = svc.audience; expires_at = value_or p.exp 0 })
                    c four
                    (record { audience = refl; claims_complete = whole; claims_audience = same }) h,
              )
      ]
    ]
  ]

  from_cache-Good :
      (deny : DenyList) (e : CacheEntry) (c : Cache)
      → IsVerified e
      → IsCache c
      → Good deny (from_cache lib svc deny e c)
  unfolding to_auth
  from_cache-Good deny e c v h = elim (Bool-cases (is_revoked deny e.payload.jti)) [
    | inl bad ↦ rw bad (tt, pop-IsCache e.payload.jti c h)
    | inr fine ↦ rw fine ((v.audience, tenant_of_complete e.payload v.claims_complete, fine), h)
  ]

  get-IsVerified :
      (token : String) (c : Cache) (e : CacheEntry)
      → AllEntries IsVerified c
      → cache_get token c ≡ some e
      → IsVerified e
  unfolding cache_get
  get-IsVerified token [] e h g = cc
  get-IsVerified token ((j, f) ∷ c) e h g = elim (Bool-cases (j == token)) [
    | inl here ↦ let same : f ≡ e = ground arith in subst IsVerified same h.0
    | inr there ↦ get-IsVerified token c e h.1 (ground arith)
  ]

  live-IsVerified :
      (now : ℕ) (token : String) (c : Cache) (o : Option CacheEntry) (e : CacheEntry)
      → AllEntries IsVerified c
      → cache_get token c ≡ o
      → live_entry lib svc now o ≡ some e
      → IsVerified e
  live-IsVerified now token c none e h g l = cc
  live-IsVerified now token c (some f) e h g l = get-IsVerified token c e h (g ∙ ground arith)

  verify_with-Good :
      (o : Option CacheEntry) (bundle : SecretBundle) (deny : DenyList) (now : ℕ) (token : String)
      (c : Cache)
      → 4 ≤ svc.max_entries
      → ((e : CacheEntry) → o ≡ some e → IsVerified e)
      → IsCache c
      → Good deny (verify_with lib svc o bundle deny now token c)
  verify_with-Good (some e) bundle deny now token c four v h = from_cache-Good deny e c (v e refl) h
  verify_with-Good none bundle deny now token c four v h =
      decoded (decode_with_rotation lib svc now token bundle)
    where
      decoded : (p : Option Claims) → Good deny (accept_decoded lib svc deny now token p c)
      decoded none = (tt, h)
      decoded (some p) = accept-Good deny now token p c four h

  -- A token that `verify` accepts, from the cache or not, is for this service's audience and names a
  -- tenant, and the check of the deny-list does not find it, or raises; and whatever the outcome, the cache
  -- stays within its bound and holds entries of complete payloads for this audience only.
  pub verify-Sound :
      (bundle : SecretBundle) (deny : DenyList) (now : ℕ) (token : String) (c : Cache)
      → 4 ≤ svc.max_entries
      → IsCache c
      → Sound deny (verify lib svc bundle deny now token c).0
        × IsCache (verify lib svc bundle deny now token c).1
  unfolding verify
  verify-Sound bundle deny now token c four h =
      verify_with-Good (live_entry lib svc now (cache_get token c)) bundle deny now token c four
        (λ e l. live-IsVerified now token c (cache_get token c) e h.entries refl l) h

  -- A token that was minted before a rotation verifies after it, through the previous secret, and gives
  -- the tenant, subject and role that it was minted for. This assumes that PyJWT refuses it under the
  -- new secret and decodes what it encoded under the old one, and that neither a cached entry nor the
  -- deny-list stands in the way.
  pub verify-mint_rotated :
      (old new : SecretBundle) (deny : DenyList) (minted now : ℕ)
      (jti subject tenant token : String) (role : Option String) (c : Cache)
      → mint lib svc old minted jti subject tenant svc.audience role ≡ ok token
      → (old.current == "") ≡ false
      → new.previous ≡ some old.current
      → lib.decode token new.current svc.audience svc.leeway now ≡ none
      → (let p = minted_claims lib svc minted jti subject tenant svc.audience role in
          lib.decode (lib.encode p old.current) old.current svc.audience svc.leeway now ≡ some p)
      → cache_get token c ≡ none
      → is_revoked deny (some jti) ≡ false
      → (verify lib svc new deny now token c).0
        ≡ ok (record {
          user_id = some subject;
          tenant_id = some tenant;
          audience = svc.audience;
          role = role;
          jti = some jti;
        })
  verify-mint_rotated old new deny minted now jti subject tenant token role c m nonempty prev
        refuses decodes miss fine =
      let p = minted_claims lib svc minted jti subject tenant svc.audience role in
      let same : token ≡ lib.encode p old.current = unfold mint in ground arith in
      let decoded : lib.decode token old.current svc.audience svc.leeway now ≡ some p =
        ap (λ (t : String). lib.decode t old.current svc.audience svc.leeway now) same ∙ decodes in
      let found : decode_with_rotation lib svc now token new ≡ some p =
        unfold decode_with_rotation in ground arith in
      let accepted : (accept lib svc deny now token p c).0 ≡ ok (to_auth p svc.audience) =
        unfold accept minted_claims in ground (arith, eq_refl svc.audience) in
      unfold verify to_auth minted_claims in ground (arith, miss, found, accepted)

  get-pop :
      (token jti : String) (c : Cache)
      → (jti == token) ≡ false
      → cache_get token (cache_pop jti c) ≡ cache_get token c
  unfolding cache_get cache_pop
  get-pop token jti [] h = refl
  get-pop token jti ((k, e) ∷ c) h =
      ground (arith, get-pop token jti c h, eq_iff k jti, eq_iff k token, eq_iff jti token)

  verify_cached :
      (bundle : SecretBundle) (deny : DenyList) (now : ℕ) (token : String) (e : CacheEntry)
      (c : Cache)
      → cache_get token c ≡ some e
      → now < e.expires_at
      → verify lib svc bundle deny now token c ≡ from_cache lib svc deny e c
  unfolding verify
  verify_cached bundle deny now token e c hit live =
      let alive : live_entry lib svc now (some e) ≡ some e = ground arith in
      ap
        (λ (o : Option CacheEntry).
          verify_with lib svc (live_entry lib svc now o) bundle deny now token c)
        hit
      ∙ ap (λ (o : Option CacheEntry). verify_with lib svc o bundle deny now token c) alive

  refused :
      (deny : DenyList) (e : CacheEntry) (jti : String) (c : Cache)
      → e.payload.jti ≡ some jti
      → is_revoked deny e.payload.jti ≡ true
      → from_cache lib svc deny e c ≡ (raised jwt_error, cache_pop jti c)
  refused deny e jti c j bad =
      rw bad (ap (λ (o : Option String). (raised jwt_error, pop_jti o c)) j)

  accepted_again :
      (deny : DenyList) (e : CacheEntry) (c : Cache)
      → is_revoked deny e.payload.jti ≡ false
      → (from_cache lib svc deny e c).0 ≡ ok (to_auth e.payload e.audience)
  accepted_again deny e c fine = rw fine refl

  -- A token whose jti is put on the deny-list is refused, but its entry stays in the cache, since the
  -- entry is dropped under the jti and not under the token: while the deny-list cannot be read, the
  -- token is accepted again until it expires.
  pub verify-revoked_then_outage :
      (bundle : SecretBundle) (check : String → Option Bool) (now : ℕ) (token jti : String)
      (e : CacheEntry) (c : Cache)
      → cache_get token c ≡ some e
      → now < e.expires_at
      → e.payload.jti ≡ some jti
      → (jti == "") ≡ false
      → check jti ≡ some true
      → (jti == token) ≡ false
      → let after = verify lib svc bundle (some check) now token c in
        (after.0 ≡ raised jwt_error)
        × ((verify lib svc bundle (some (λ _. none)) now token after.1).0
            ≡ ok (to_auth e.payload e.audience))
  verify-revoked_then_outage bundle check now token jti e c hit live j some_jti revoked other =
      let outage : DenyList = some (λ _. none) in
      let bad : is_revoked (some check) e.payload.jti ≡ true = unfold is_revoked in ground arith in
      let fine : is_revoked outage e.payload.jti ≡ false = unfold is_revoked in ground arith in
      let first =
        verify_cached bundle (some check) now token e c hit live
        ∙ refused (some check) e jti c j bad in
      let kept = get-pop token jti c other ∙ hit in
      (
        ap (λ (x : Result AuthContext × Cache). x.0) first,
        ap (λ (x : Result AuthContext × Cache). (verify lib svc bundle outage now token x.1).0)
              first
            ∙ ap (λ (x : Result AuthContext × Cache). x.0)
                (verify_cached bundle outage now token e (cache_pop jti c) kept live)
            ∙ accepted_again outage e (cache_pop jti c) fine,
      )
