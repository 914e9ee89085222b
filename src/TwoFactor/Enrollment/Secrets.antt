-- ===== src/TwoFactor/Enrollment/Secrets.antt =====
-- `packEnvelope`, `unpackEnvelope` and `decryptSecret` of apps/api/src/auth/totp.service.ts: a secret there and back.
use Prim.Native.String.{String}
use nudgeon_platform.Common.{
  ℕ, ◌+◌, ◌*◌, ◌/◌, ◌%◌, ◌^◌, ◌<◌, ◌≡◌, refl, ap, ◌∙◌, List, some, arith, length, take-append,
  drop-append,
}
use nudgeon_platform.Envelope.{Envelope, nonce_len, decrypt_envelope}
use nudgeon_platform.Envelope.Laws.{IsCipher, key_len, encrypt_envelope-IsReadBack}
use nudgeon_platform.TwoFactor.Login.{Host, pack_envelope, unpack_envelope, decrypt_secret}
use nudgeon_platform.TwoFactor.Enrollment.{Draw, sealed_secret}

uint32-bytes :
    (n : ℕ)
    → n < 2 ^ 32
    → n / 16777216 % 256 * 16777216 + n / 65536 % 256 * 65536 + n / 256 % 256 * 256 + n % 256 ≡ n
uint32-bytes n small = omega arith

-- An envelope whose ciphertext has fewer than 2^32 bytes is read back from the bytes it is stored as.
pub unpack_envelope-pack_envelope :
    (env : Envelope)
    → length env.ciphertext < 2 ^ 32
    → unpack_envelope (pack_envelope env) ≡ some env
unpack_envelope-pack_envelope env small =
    rw
      (
        uint32-bytes (length env.ciphertext) small,
        take-append (length env.ciphertext) env.ciphertext env.dek_wrapped refl,
        drop-append (length env.ciphertext) env.ciphertext env.dek_wrapped refl,
      )
      refl

decrypt_secret-eq-some :
    (host : Host) (sealed key : List ℕ) (env : Envelope) (text : String)
    → host.master_key ≡ some key
    → unpack_envelope sealed ≡ some env
    → decrypt_envelope host.cipher key env ≡ some text
    → decrypt_secret host sealed ≡ some (host.from_base64 text)
unfolding decrypt_secret
decrypt_secret-eq-some host sealed key env text keyed unpacked opened =
    rw (keyed, unpacked, opened) refl

-- With a cipher that is as documented, nonces of 12 bytes and keys of 32, the secret that an enrollment stores is
-- there, and is the secret that the login reads, under the same master key; its text in base64 is read back by
-- UTF-8 and by base64, and is shorter than 2^32 bytes by 28 at least.
pub decrypt_secret-sealed_secret :
    (host : Host) (to_base64 : List ℕ → String) (draw : Draw) (key : List ℕ)
    → IsCipher host.cipher
    → host.master_key ≡ some key
    → length draw.body_nonce ≡ nonce_len
    → length draw.key_nonce ≡ nonce_len
    → length draw.dek ≡ key_len
    → length key ≡ key_len
    → host.cipher.from_utf8 (host.cipher.utf8 (to_base64 draw.secret)) ≡ to_base64 draw.secret
    → host.from_base64 (to_base64 draw.secret) ≡ draw.secret
    → length (host.cipher.utf8 (to_base64 draw.secret)) + 28 < 2 ^ 32
    → (sealed : List ℕ) × (sealed_secret host to_base64 draw key ≡ some sealed)
      × (decrypt_secret host sealed ≡ some draw.secret)
decrypt_secret-sealed_secret host to_base64 draw key laws keyed body_size key_size dek_size
      master_size utf8 base64 small =
    let back =
      encrypt_envelope-IsReadBack host.cipher laws draw.dek draw.body_nonce draw.key_nonce key
        (to_base64 draw.secret) body_size key_size utf8 dek_size master_size in
    (
      pack_envelope back.envelope,
      rw (back.made) refl,
      decrypt_secret-eq-some host (pack_envelope back.envelope) key back.envelope
            (to_base64 draw.secret) keyed
            (unpack_envelope-pack_envelope back.envelope (omega (arith, back.ciphertext_length)))
            back.read
          ∙ ap some base64,
    )
