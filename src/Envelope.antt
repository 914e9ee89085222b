-- ===== src/Envelope.antt =====
-- apps/api/src/crypto/envelope.ts: `seal`, `open`, `encryptEnvelope` and `decryptEnvelope`. A buffer is a list
-- of bytes. AES-256-GCM and UTF-8 are Node's, and the random bytes are arguments.
pub mod Laws
use Prim.Native.String.{String}
use nudgeon_platform.Common.{
  ℕ, ◌+◌, ◌-◌, List, ◌++◌, Option, none, some, if◌then◌else◌, leb, length, take, drop,
}

-- What Node's crypto and Buffer do: a key, a nonce and a plaintext give the body and the tag, and back; none is an
-- exception, such as that of `createCipheriv` at a key of another length.
pub record Cipher : Type 0 where
  pub encrypt : List ℕ → List ℕ → List ℕ → Option (List ℕ × List ℕ)
  pub decrypt : List ℕ → List ℕ → List ℕ → List ℕ → Option (List ℕ)
  pub utf8 : String → List ℕ
  pub from_utf8 : List ℕ → String

pub record Envelope : Type 0 where
  pub ciphertext : List ℕ
  pub dek_wrapped : List ℕ

abbrev pub nonce_len : ℕ
nonce_len = 12

-- Where `subarray` begins at the index `length - 16`: an index below 0 counts from the end, down to 0.
abbrev pub tag_start : ℕ → ℕ
tag_start n = if leb 16 n then n - 16 else (n + n) - 16

module _ (cipher : Cipher) where
  abbrev pub sealed_parts : List ℕ → Option (List ℕ × List ℕ) → Option (List ℕ)
  sealed_parts nonce none = none
  sealed_parts nonce (some (body, tag)) = some (nonce ++ (body ++ tag))

  unfoldable pub seal : List ℕ → List ℕ → List ℕ → Option (List ℕ)
  seal key nonce plaintext = sealed_parts nonce (cipher.encrypt key nonce plaintext)

  unfoldable pub unseal : List ℕ → List ℕ → Option (List ℕ)
  unseal key sealed =
      let end = tag_start (length sealed) in
      cipher.decrypt key (take nonce_len sealed) (drop nonce_len (take end sealed))
        (drop end sealed)

  abbrev pub envelope_of : Option (List ℕ) → Option (List ℕ) → Option Envelope
  envelope_of none wrapped = none
  envelope_of (some ciphertext) none = none
  envelope_of (some ciphertext) (some wrapped) =
      some (record { ciphertext = ciphertext; dek_wrapped = wrapped })

  -- `encryptEnvelope`, with the key and the nonces that it draws.
  unfoldable pub encrypt_envelope : List ℕ → List ℕ → List ℕ → List ℕ → String → Option Envelope
  encrypt_envelope dek body_nonce key_nonce master_key plaintext =
      envelope_of (seal dek body_nonce (cipher.utf8 plaintext)) (seal master_key key_nonce dek)

  abbrev pub opened_text : Option (List ℕ) → Option String
  opened_text none = none
  opened_text (some bytes) = some (cipher.from_utf8 bytes)

  abbrev pub open_body : Option (List ℕ) → List ℕ → Option String
  open_body none ciphertext = none
  open_body (some dek) ciphertext = opened_text (unseal dek ciphertext)

  -- `decryptEnvelope`; none is an exception.
  unfoldable pub decrypt_envelope : List ℕ → Envelope → Option String
  decrypt_envelope master_key env = open_body (unseal master_key env.dek_wrapped) env.ciphertext
