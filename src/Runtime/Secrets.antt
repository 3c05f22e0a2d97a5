-- ===== src/Runtime/Secrets.antt =====
-- services/_runtime/secret_store.py: the secrets of the audiences, in the store that is kept in the
-- process. A new secret is an argument of what draws it; the time of a rotation is read nowhere.
pub mod Rotation
mod Tests
use cyber_security_alert_tri.Common.{String, Option, none, some, List, [], ◌∷◌, ◌==◌, if◌then◌else◌}
use cyber_security_alert_tri.Effects.{Result, ok, raised, key_error}
use cyber_security_alert_tri.Runtime.Jwt.{SecretBundle}

-- `self._bundles`
abbrev pub Bundles : Type 0
Bundles = List (String × SecretBundle)

-- `self._bundles.get(audience)`
pub find_bundle : String → Bundles → Option SecretBundle
find_bundle audience [] = none
find_bundle audience ((k, b) ∷ bs) = if k == audience then some b else find_bundle audience bs

-- `self._bundles[audience] = bundle`
pub put_bundle : String → SecretBundle → Bundles → Bundles
put_bundle audience bundle [] = (audience, bundle) ∷ []
put_bundle audience bundle ((k, b) ∷ bs) =
    let rest = put_bundle audience bundle bs in
    if k == audience then (audience, bundle) ∷ bs else (k, b) ∷ rest

-- `__init__`, with a new secret for each audience of the seed.
pub seeded : List (String × String) → Bundles → Bundles
seeded [] bs = bs
seeded ((audience, secret) ∷ seed) bs =
    seeded seed
      (put_bundle audience (record { audience = audience; current = secret; previous = none }) bs)

abbrev pub bundle_or_error : Option SecretBundle → Result SecretBundle
bundle_or_error none = raised key_error
bundle_or_error (some b) = ok b

-- `get_bundle`
pub get_bundle : String → Bundles → Result SecretBundle
get_bundle audience bs = bundle_or_error (find_bundle audience bs)

-- `old.current if old is not None else None`
abbrev pub current_of : Option SecretBundle → Option String
current_of none = none
current_of (some b) = some b.current

-- `rotate`
pub rotate : String → String → Bundles → SecretBundle × Bundles
rotate secret audience bs =
    let bundle : SecretBundle = record {
      audience = audience;
      current = secret;
      previous = current_of (find_bundle audience bs);
    } in
    (bundle, put_bundle audience bundle bs)
