-- ===== src/Pairing/Crypto.antt =====
-- src/central/managers/case/pairing-crypto.ts. Digests and random bytes are the host's.
use Prim.Native.String.{slice}
use newconduit.Base.{
  Bool, String, [], join, length, list_eq, nat_eq, not, option_eq, pair_eq, string_eq, text_length,
  ◌&&◌, ◌==◌, ◌∷◌,
}
use newconduit.Model.{condition_eq, event_type_eq, lifecycle_eq, status_eq}
use newconduit.World.{Host, M, gets, pure, random_token, ◌>>=◌}

-- A digest is compared as hexadecimal text, then as bytes, in constant time.
hashes_match : Host → String → String → Bool
hashes_match host left right =
    (text_length left == text_length right)
    && (not (text_length left == 0)
        && (not (length (host.hex_bytes left) == 0) && host.hex_bytes left == host.hex_bytes right))

unfoldable pub derive_device_ref : Host → String → String → String → String
derive_device_ref host tenant_id case_id device_id = join (
    "dref_"
    ∷ slice (host.sha256_hex (join (tenant_id ∷ "\0" ∷ case_id ∷ "\0" ∷ device_id ∷ []))) 0 40
    ∷ [])

pub record HashedSecret : Type 0 where
  pub salt : String
  pub hash : String

pub compute_hash : Host → String → String → String → String
compute_hash host pepper secret salt = host.hmac_hex (join (salt ∷ pepper ∷ [])) secret

-- `issue` of the bearer provider: the secret, and what is stored of it.
unfoldable pub issue : String → M (String × HashedSecret)
unfolding compute_hash
issue pepper = do
  secret ← random_token 32
  salt ← random_token 16
  host ← gets λ w. w.host
  pure (secret, record { salt = salt; hash = compute_hash host pepper secret salt })

unfoldable pub verify : Host → String → String → HashedSecret → Bool
unfolding compute_hash hashes_match
verify host pepper secret hashed =
    not (text_length secret == 0)
    && hashes_match host (compute_hash host pepper secret hashed.salt) hashed.hash
