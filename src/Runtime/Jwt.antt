-- ===== src/Runtime/Jwt.antt =====
-- services/_runtime/jwt_service.py: minting and verifying HS256 service tokens, with rotation, the
-- deny-list and the cache of verified tokens. PyJWT is the fields of `JwtLibrary`.
pub mod Cache
pub mod Verify
mod Tests
use cyber_security_alert_tri.Common.{
  ℕ, ◌+◌, ◌-◌, String, Bool, true, false, not, ◌&&◌, ◌||◌, Option, none, some, List, [], ◌∷◌, ◌==◌,
  leb, ltb, length, is_some, if◌then◌else◌,
}
use Prim.Native.Nat.{◌/◌, zero, suc}
use cyber_security_alert_tri.Effects.{Result, ok, raised, jwt_error}
use cyber_security_alert_tri.Runtime.Tenant.{AuthContext}

-- `SecretBundle`
pub record SecretBundle : Type 0 where
  pub audience : String
  pub current : String
  pub previous : Option String

-- The claims of a token; `none` is a claim that is missing.
pub record Claims : Type 0 where
  pub iss : Option String
  pub sub : Option String
  pub aud : Option String
  pub tid : Option String
  pub jti : Option String
  pub iat : Option ℕ
  pub exp : Option ℕ
  pub role : Option String

-- `_CacheEntry`
pub record CacheEntry : Type 0 where
  pub payload : Claims
  pub audience : String
  pub expires_at : ℕ

-- `self._cache`, keyed by token.
abbrev pub Cache : Type 0
Cache = List (String × CacheEntry)

-- `jwt.encode` and `jwt.decode`; `decode` is given the secret, the audience, the leeway and the time,
-- and answers `none` where PyJWT raises.
pub record JwtLibrary : Type 0 where
  pub encode : Claims → String → String
  pub decode : String → String → String → ℕ → ℕ → Option Claims

-- The deny-list at the time of one call: whether a jti is on it, or `none` where the check raises.
abbrev pub DenyList : Type 0
DenyList = Option (String → Option Bool)

unfoldable pub cache_get : String → Cache → Option CacheEntry
cache_get k [] = none
cache_get k ((j, e) ∷ c) = if j == k then some e else cache_get k c

pub cache_pop : String → Cache → Cache
cache_pop k [] = []
cache_pop k ((j, e) ∷ c) = let rest = cache_pop k c in if j == k then c else (j, e) ∷ rest

pub cache_set : String → CacheEntry → Cache → Cache
cache_set k v [] = (k, v) ∷ []
cache_set k v ((j, e) ∷ c) =
    let rest = cache_set k v c in if j == k then (k, v) ∷ c else (j, e) ∷ rest

-- `_to_auth`
pub to_auth : Claims → String → AuthContext
to_auth payload audience = record {
  user_id = payload.sub;
  tenant_id = payload.tid;
  audience = audience;
  role = payload.role;
  jti = payload.jti;
}

abbrev pub fails : Option Bool → Bool
fails (some true) = true
fails _ = false

abbrev pub denied : DenyList → String → Bool
denied none jti = false
denied (some check) jti = if jti == "" then false else fails (check jti)

-- `_check_revocation`: true where it raises. The cache entry that it drops is looked up by the jti.
unfoldable pub is_revoked : DenyList → Option String → Bool
is_revoked deny none = false
is_revoked deny (some jti) = denied deny jti

abbrev pub pop_jti : Option String → Cache → Cache
pop_jti none c = c
pop_jti (some jti) c = cache_pop jti c

-- The entries that have not expired.
pub unexpired : ℕ → Cache → Cache
unexpired now [] = []
unexpired now ((k, e) ∷ c) =
    let rest = unexpired now c in if leb e.expires_at now then rest else (k, e) ∷ rest

-- `sorted(…, key=expires_at)`
pub insert_sorted : String × CacheEntry → Cache → Cache
insert_sorted (k, e) [] = (k, e) ∷ []
insert_sorted (k, e) ((j, f) ∷ c) =
    let rest = insert_sorted (k, e) c in
    if leb e.expires_at f.expires_at then (k, e) ∷ (j, f) ∷ c else (j, f) ∷ rest

pub sort_by_expiry : Cache → Cache
sort_by_expiry [] = []
sort_by_expiry (x ∷ c) = insert_sorted x (sort_by_expiry c)

pub drop_first : ℕ → Cache → Cache
drop_first zero c = c
drop_first (suc n) [] = []
drop_first (suc n) (x ∷ c) = drop_first n c

-- `_maybe_evict`. What is left after the oldest quarter stands in order of expiry; a dictionary's
-- order is read nowhere else.
unfoldable pub maybe_evict : ℕ → ℕ → Cache → Cache
maybe_evict max_entries now c =
    if ltb (length c) max_entries
    then c
    else (let live = unexpired now c in
        if leb max_entries (length live)
        then drop_first (length live / 4) (sort_by_expiry live)
        else live)

-- The required claims are all there.
abbrev pub complete : Claims → Bool
complete p = is_some p.sub && (is_some p.tid && (is_some p.jti && (is_some p.iat && is_some p.exp)))

abbrev pub same_text : Option String → String → Bool
same_text none t = false
same_text (some s) t = s == t

abbrev pub value_or : Option ℕ → ℕ → ℕ
value_or none d = d
value_or (some n) d = n

-- The constructor's arguments.
pub record Service : Type 0 where
  pub audience : String
  pub ttl : ℕ
  pub leeway : ℕ
  pub max_entries : ℕ

module _ (lib : JwtLibrary) (svc : Service) where
  -- `if not secret: continue` and the attempt with one secret.
  pub try_secret : ℕ → String → String → Option Claims
  try_secret now token secret =
      if secret == "" then none else lib.decode token secret svc.audience svc.leeway now

  abbrev pub try_previous : ℕ → String → Option String → Option Claims
  try_previous now token none = none
  try_previous now token (some secret) = try_secret now token secret

  abbrev or_previous : Option Claims → ℕ → String → Option String → Option Claims
  or_previous (some p) now token previous = some p
  or_previous none now token previous = try_previous now token previous

  -- `_decode_with_rotation`; `none` where it raises.
  unfoldable pub decode_with_rotation : ℕ → String → SecretBundle → Option Claims
  unfolding try_secret
  decode_with_rotation now token bundle =
      or_previous (try_secret now token bundle.current) now token bundle.previous

  -- The checks after the signature, and the write to the cache.
  unfoldable pub accept : DenyList → ℕ → String → Claims → Cache → Result AuthContext × Cache
  unfolding is_revoked to_auth cache_set cache_pop maybe_evict
  accept deny now token p c =
      if not (same_text p.aud svc.audience)
      then (raised jwt_error, c)
      else if not (complete p)
      then (raised jwt_error, c)
      else if is_revoked deny p.jti
      then (raised jwt_error, pop_jti p.jti c)
      else (
        ok (to_auth p svc.audience),
        cache_set token
            (record { payload = p; audience = svc.audience; expires_at = value_or p.exp 0 })
            (maybe_evict svc.max_entries now c),
      )

  abbrev pub accept_decoded :
      DenyList → ℕ → String → Option Claims → Cache → Result AuthContext × Cache
  accept_decoded deny now token none c = (raised jwt_error, c)
  accept_decoded deny now token (some p) c = accept deny now token p c

  abbrev pub from_cache : DenyList → CacheEntry → Cache → Result AuthContext × Cache
  from_cache deny e c =
      if is_revoked deny e.payload.jti
      then (raised jwt_error, pop_jti e.payload.jti c)
      else (ok (to_auth e.payload e.audience), c)

  abbrev pub live_entry : ℕ → Option CacheEntry → Option CacheEntry
  live_entry now none = none
  live_entry now (some e) = if ltb now e.expires_at then some e else none

  abbrev pub verify_with :
      Option CacheEntry → SecretBundle → DenyList → ℕ → String → Cache → Result AuthContext × Cache
  verify_with (some e) bundle deny now token c = from_cache deny e c
  verify_with none bundle deny now token c =
      accept_decoded deny now token (decode_with_rotation now token bundle) c

  -- `verify`, at one moment of the clock, with the bundle and the deny-list of that moment.
  unfoldable pub verify : SecretBundle → DenyList → ℕ → String → Cache → Result AuthContext × Cache
  unfolding cache_get
  verify bundle deny now token c =
      verify_with (live_entry now (cache_get token c)) bundle deny now token c

  -- The claims that `mint` signs where there are no extra claims: `jti` is the fresh random id.
  unfoldable pub minted_claims : ℕ → String → String → String → String → Option String → Claims
  minted_claims now jti subject tenant_id target role = record {
    iss = some svc.audience;
    sub = some subject;
    aud = some target;
    tid = some tenant_id;
    jti = some jti;
    iat = some now;
    exp = some (now + svc.ttl);
    role = role;
  }

  -- `mint`; the signature is by the current secret.
  unfoldable pub mint :
      SecretBundle → ℕ → String → String → String → String → Option String → Result String
  mint bundle now jti subject tenant_id target role =
      if not (bundle.audience == svc.audience)
      then raised jwt_error
      else ok (lib.encode (minted_claims now jti subject tenant_id target role) bundle.current)
