-- ===== src/Examples/Crypto.antt =====
-- A field of backend/crypto/crypto.go under a cipher that seals nothing.
use mathlib.Core.Option.{some-injective}
use commitkube.Base.{refl, =s_true, sym, false, subst, Option, ap, ◌=s◌, ◌≡◌, String, true, some}
use commitkube.Crypto.{
  or_text, encrypt, cut_prefix, decrypt_field-encrypt_field, encrypt_field, decrypt_field,
  is_encrypted, IsAead, Aead,
}

-- The nonce is empty, and base64 is the text itself.
abbrev clear : Aead
clear = record {
  Bytes = String;
  of_text = λ s. s;
  to_text = λ b. b;
  encode = λ b. b;
  decode = λ s. some s;
  accepts = λ k. true;
  is_nonce = λ n. n =s "";
  seal = λ k n p. p;
  split = λ b. some ("", b);
  unseal = λ k n b. some b;
}

clear-IsAead : IsAead clear
clear-IsAead = record {
  decodes = λ b. refl;
  reads = λ s. refl;
  opens =
      λ key nonce plain h. (plain, (ap (λ n. some (n, plain)) (sym (=s_true nonce "" h)), refl));
}

drawn_is_nonce : (n : String) → ◌≡◌ {A = Option String} (some "") (some n) → (n =s "") ≡ true
drawn_is_nonce n h = subst (λ (m : String). (m =s "") ≡ true) (some-injective "" n h) refl

secret_is_plain : is_encrypted "secret" ≡ false
unfolding is_encrypted cut_prefix
secret_is_plain = refl

decrypt_field-encrypt_field_example :
    decrypt_field clear (some "key") (encrypt_field clear (some "key") (some "") "secret")
    ≡ "secret"
decrypt_field-encrypt_field_example =
    decrypt_field-encrypt_field clear clear-IsAead (some "key") (some "") "secret" drawn_is_nonce
      secret_is_plain

encrypt_field_run : encrypt_field clear (some "key") (some "") "secret" ≡ "enc:secret"
unfolding encrypt_field is_encrypted cut_prefix encrypt or_text
encrypt_field_run = refl
