-- ===== src/Envelope/Laws.antt =====
-- apps/api/src/crypto/envelope.ts: there and back.
use Prim.Native.String.{String}
use nudgeon_platform.Common.{
  ℕ, ◌+◌, ◌≡◌, ◌⊎◌, inl, inr, refl, sym, ap, ◌∙◌, true, false, ◌&&◌, ◌==◌, ==_iff, Bool-cases, none,
  List, [], ◌∷◌, ◌++◌, some, arith, length, length-append, take, drop, take-append, drop-append,
}
use nudgeon_platform.Envelope.{
  Cipher, Envelope, nonce_len, tag_start, seal, unseal, encrypt_envelope, decrypt_envelope,
}

abbrev pub key_len : ℕ
key_len = 32

-- What AES-256-GCM gives for a plaintext: a body of its length and a tag of 16 bytes, which are decrypted with the
-- same key and nonce.
pub record IsEncrypted (cipher : Cipher) (key nonce plaintext : List ℕ) : Type 0 where
  pub body : List ℕ
  pub tag : List ℕ
  pub made : cipher.encrypt key nonce plaintext ≡ some (body, tag)
  pub same_length : length body ≡ length plaintext
  pub tag_length : length tag ≡ 16
  pub decrypts : cipher.decrypt key nonce body tag ≡ some plaintext

-- What is documented of the cipher: it encrypts with a key of 32 bytes and a nonce of 12, and throws at a key of
-- any other length.
pub record IsCipher (cipher : Cipher) : Type 0 where
  pub encrypts :
      (key nonce plaintext : List ℕ)
      → length key ≡ key_len
      → length nonce ≡ nonce_len
      → IsEncrypted cipher key nonce plaintext
  pub refuses :
      (key nonce plaintext : List ℕ)
      → (length key == key_len) ≡ false
      → cipher.encrypt key nonce plaintext ≡ none

append_assoc : (xs ys zs : List ℕ) → (xs ++ ys) ++ zs ≡ xs ++ (ys ++ zs)
append_assoc [] ys zs = refl
append_assoc (x ∷ xs) ys zs = ap (λ r. x ∷ r) (append_assoc xs ys zs)

unseal_parts :
    (cipher : Cipher) (key sealed nonce body tag : List ℕ)
    → take nonce_len sealed ≡ nonce
    → take (tag_start (length sealed)) sealed ≡ nonce ++ body
    → drop (tag_start (length sealed)) sealed ≡ tag
    → length nonce ≡ nonce_len
    → unseal cipher key sealed ≡ cipher.decrypt key nonce body tag
unfolding unseal
unseal_parts cipher key sealed nonce body tag first front back size =
    rw (unseal, first, front, back, drop-append nonce_len nonce body size) refl

unseal_whole :
    (cipher : Cipher) (key nonce body tag : List ℕ)
    → length nonce ≡ nonce_len
    → length tag ≡ 16
    → unseal cipher key (nonce ++ (body ++ tag)) ≡ cipher.decrypt key nonce body tag
unseal_whole cipher key nonce body tag size tag_size =
    let sealed : List ℕ = nonce ++ (body ++ tag) in
    let long : length sealed ≡ length (nonce ++ body) + 16 = omega (
      arith,
      length-append nonce (body ++ tag),
      length-append body tag,
      length-append nonce body,
      tag_size,
    ) in
    let end : length (nonce ++ body) ≡ tag_start (length sealed) = ground arith in
    let split : sealed ≡ (nonce ++ body) ++ tag = sym (append_assoc nonce body tag) in
    unseal_parts cipher key sealed nonce body tag (take-append nonce_len nonce (body ++ tag) size)
      (ap (λ r. take (tag_start (length sealed)) r) split
        ∙ take-append (tag_start (length sealed)) (nonce ++ body) tag end)
      (ap (λ r. drop (tag_start (length sealed)) r) split
        ∙ drop-append (tag_start (length sealed)) (nonce ++ body) tag end)
      size

module _ (cipher : Cipher) (laws : IsCipher cipher) where
  -- A sealed text, 28 bytes longer than the text, from which it is read back.
  pub record IsSealed (key nonce plaintext : List ℕ) : Type 0 where
    pub sealed : List ℕ
    pub made : seal cipher key nonce plaintext ≡ some sealed
    pub longer : length sealed ≡ length plaintext + 28
    pub opens : unseal cipher key sealed ≡ some plaintext

  seal-IsSealed :
      (key nonce plaintext : List ℕ)
      → length key ≡ key_len
      → length nonce ≡ nonce_len
      → IsSealed key nonce plaintext
  unfolding seal
  seal-IsSealed key nonce plaintext keyed size =
      let e = laws.encrypts key nonce plaintext keyed size in
      record {
        sealed = nonce ++ (e.body ++ e.tag);
        made = rw (e.made) refl;
        longer = omega (
          arith,
          length-append nonce (e.body ++ e.tag),
          length-append e.body e.tag,
          e.same_length,
          e.tag_length,
          size,
        );
        opens = unseal_whole cipher key nonce e.body e.tag size e.tag_length ∙ e.decrypts;
      }

  seal-refused :
      (key nonce plaintext : List ℕ)
      → (length key == key_len) ≡ false
      → seal cipher key nonce plaintext ≡ none
  unfolding seal
  seal-refused key nonce plaintext other = rw (laws.refuses key nonce plaintext other) refl

  -- An envelope of a text, from which it is read back under the master key.
  pub record IsReadBack (dek body_nonce key_nonce master_key : List ℕ) (text : String)
      : Type 0 where
    pub envelope : Envelope
    pub made : encrypt_envelope cipher dek body_nonce key_nonce master_key text ≡ some envelope
    pub ciphertext_length : length envelope.ciphertext ≡ length (cipher.utf8 text) + 28
    pub read : decrypt_envelope cipher master_key envelope ≡ some text

  pub encrypt_envelope-IsReadBack :
      (dek body_nonce key_nonce master_key : List ℕ) (text : String)
      → length body_nonce ≡ nonce_len
      → length key_nonce ≡ nonce_len
      → cipher.from_utf8 (cipher.utf8 text) ≡ text
      → length dek ≡ key_len
      → length master_key ≡ key_len
      → IsReadBack dek body_nonce key_nonce master_key text
  unfolding decrypt_envelope encrypt_envelope
  encrypt_envelope-IsReadBack dek body_nonce key_nonce master_key text body_size key_size reads
        dek_size master_size =
      let body = seal-IsSealed dek body_nonce (cipher.utf8 text) dek_size body_size in
      let wrapped = seal-IsSealed master_key key_nonce dek master_size key_size in
      record {
        envelope = record { ciphertext = body.sealed; dek_wrapped = wrapped.sealed };
        made = rw (body.made, wrapped.made) refl;
        ciphertext_length = body.longer;
        read = rw (wrapped.opens, body.opens) (ap some reads);
      }

  -- With a cipher that is as documented and nonces of 12 bytes, an envelope is made exactly when the drawn key and
  -- the master key have 32 bytes, and is an exception otherwise. A text that UTF-8 reads back comes out of its
  -- envelope under the same master key.
  pub decrypt_envelope-encrypt_envelope :
      (dek body_nonce key_nonce master_key : List ℕ) (text : String)
      → length body_nonce ≡ nonce_len
      → length key_nonce ≡ nonce_len
      → cipher.from_utf8 (cipher.utf8 text) ≡ text
      → (((length dek == key_len) && (length master_key == key_len)) ≡ true)
          × IsReadBack dek body_nonce key_nonce master_key text
        ⊎ ((((length dek == key_len) && (length master_key == key_len)) ≡ false)
            × (encrypt_envelope cipher dek body_nonce key_nonce master_key text ≡ none))
  unfolding encrypt_envelope
  decrypt_envelope-encrypt_envelope dek body_nonce key_nonce master_key text body_size key_size
        reads =
      elim (Bool-cases (length dek == key_len)) [
        | inr short ↦
            inr (rw short refl, rw (seal-refused dek body_nonce (cipher.utf8 text) short) refl)
        | inl fits ↦
            let dek_size : length dek ≡ key_len = (==_iff (length dek) key_len).0 fits in
            elim (Bool-cases (length master_key == key_len)) [
              | inr short ↦ inr (
                rw (fits, short) refl,
                rw
                    (
                      (seal-IsSealed dek body_nonce (cipher.utf8 text) dek_size body_size).made,
                      seal-refused master_key key_nonce dek short,
                    )
                    refl,
              )
              | inl too ↦ inl (
                rw (fits, too) refl,
                encrypt_envelope-IsReadBack dek body_nonce key_nonce master_key text body_size
                    key_size reads dek_size ((==_iff (length master_key) key_len).0 too),
              )
            ]
      ]
