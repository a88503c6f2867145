-- ===== src/Crypto.antt =====
-- backend/crypto/crypto.go: how a field is kept under the master key. AES-GCM, base64 and the
-- conversions between texts and bytes are parameters.
use Prim.Native.Char.{code}
use Prim.Native.String.append
use Prim.Native.String.{[], ◌∷◌, ◌++◌}
use mathlib.Core.Option.{some-ne-none}
use commitkube.Base.{
  =s_ne, ◌≡◌, refl, ap, sym, ◌∙◌, String, Bool, true, false, ◌==◌, ◌=s◌, ◌||◌, Option, none, some,
  if◌then◌else◌, arith, Option-cases, inl, inr,
}

pub record Aead : Type 1 where
  pub Bytes : Type 0
  pub of_text : String → Bytes
  pub to_text : Bytes → String
  pub encode : Bytes → String
  pub decode : String → Option Bytes
  pub accepts : String → Bool  -- a key of a length that AES takes
  pub is_nonce : Bytes → Bool  -- of the length that GCM takes
  pub seal : String → Bytes → Bytes → Bytes  -- the nonce, and after it what is sealed
  pub split : Bytes → Option (Bytes × Bytes)  -- at the nonce's length; `none` where it is too short
  pub unseal : String → Bytes → Bytes → Option Bytes

-- Base64 decodes what it encodes, a text is read back from its bytes, and what was sealed under a
-- key and a nonce unseals under them.
pub record IsAead (c : Aead) : Type 0 where
  pub decodes : (b : c.Bytes) → c.decode (c.encode b) ≡ some b
  pub reads : (s : String) → c.to_text (c.of_text s) ≡ s
  pub opens :
      (key : String) (nonce plain : c.Bytes)
      → c.is_nonce nonce ≡ true
      → (body : c.Bytes) × ((c.split (c.seal key nonce plain) ≡ some (nonce, body))
          × (c.unseal key nonce body ≡ some plain))

-- `strings.CutPrefix`
unfoldable pub cut_prefix : String → String → Option String
cut_prefix [] s = some s
cut_prefix (c ∷ p) [] = none
cut_prefix (c ∷ p) (d ∷ s) = let rest = cut_prefix p s in if code c == code d then rest else none

abbrev pub prefix : String
prefix = "enc:"

unfoldable pub is_encrypted : String → Bool
is_encrypted s = elim (cut_prefix prefix s) [ none ↦ false | some _ ↦ true ]

module _ (c : Aead) where
  open c use {Bytes, of_text, to_text, encode, decode, accepts, is_nonce, seal, split, unseal}

  -- `Encrypt`; `none` for an error, and for a nonce that could not be drawn.
  unfoldable pub encrypt : String → Option Bytes → String → Option String
  encrypt key none s = none
  encrypt key (some nonce) s =
      if accepts key then some (prefix ++ encode (seal key nonce (of_text s))) else none

  unfoldable pub unseal_split : String → Option (Bytes × Bytes) → Option Bytes
  unseal_split key none = none
  unseal_split key (some (nonce, body)) = unseal key nonce body

  unfoldable pub decrypt_raw : String → Option Bytes → Option Bytes
  decrypt_raw key none = none
  decrypt_raw key (some raw) = if accepts key then unseal_split key (split raw) else none

  unfoldable pub text_of : Option Bytes → Option String
  text_of none = none
  text_of (some b) = some (to_text b)

  -- `Decrypt`, on what follows the prefix.
  unfoldable pub decrypt_cut : String → String → Option String → Option String
  decrypt_cut key s none = some s
  decrypt_cut key s (some rest) = text_of (decrypt_raw key (decode rest))

  unfoldable pub decrypt : String → String → Option String
  decrypt key s = decrypt_cut key s (cut_prefix prefix s)

  unfoldable pub or_text : Option String → String → String
  or_text none s = s
  or_text (some t) s = t

  -- `EncryptField`; the key is `none` where ENCRYPTION_KEY is not set. An error leaves the text as it
  -- is.
  unfoldable pub encrypt_field : Option String → Option Bytes → String → String
  encrypt_field none drawn s = s
  encrypt_field (some key) drawn s =
      if s =s "" || is_encrypted s then s else or_text (encrypt key drawn s) s

  -- `DecryptField`
  unfoldable pub decrypt_field : Option String → String → String
  decrypt_field none s = s
  decrypt_field (some key) s = if s =s "" then s else or_text (decrypt key s) s

cut_prefix-append : (p s : String) → cut_prefix p (p ++ s) ≡ some s
unfolding cut_prefix
cut_prefix-append [] s = ap (cut_prefix []) (append.nil s)
cut_prefix-append (d ∷ p) s =
    ap (cut_prefix (d ∷ p)) (append.cons d p s) ∙ ground (arith, cut_prefix-append p s)

module _ (c : Aead) (lawful : IsAead c) where
  open c use {Bytes, of_text, to_text, encode, decode, accepts, is_nonce, seal, split, unseal}

  -- What one key encrypts it decrypts.
  decrypt-sealed :
      (key : String) (nonce : Bytes) (s : String)
      → accepts key ≡ true
      → is_nonce nonce ≡ true
      → decrypt c key (prefix ++ encode (seal key nonce (of_text s))) ≡ some s
  unfolding decrypt decrypt_cut decrypt_raw unseal_split text_of
  decrypt-sealed key nonce s ok long =
      let (body, (cut, plain)) = lawful.opens key nonce (of_text s) long in
      rw (cut_prefix-append prefix (encode (seal key nonce (of_text s)))) (
        rw (lawful.decodes (seal key nonce (of_text s)))
          (rw ok (rw cut (rw plain (ap some (lawful.reads s))))))

  cut_prefix-empty : cut_prefix prefix "" ≡ none
  unfolding cut_prefix
  cut_prefix-empty = refl

  not_empty : (t : String) → ((prefix ++ t) =s "") ≡ false
  not_empty t = =s_ne (prefix ++ t) "" (λ e.
      some-ne-none t
        (sym (cut_prefix-append prefix t) ∙ ap (cut_prefix prefix) e ∙ cut_prefix-empty))

  decrypt_field-sealed :
      (key : String) (nonce : Bytes) (s : String)
      → accepts key ≡ true
      → is_nonce nonce ≡ true
      → decrypt_field c (some key) (prefix ++ encode (seal key nonce (of_text s))) ≡ s
  unfolding decrypt_field or_text
  decrypt_field-sealed key nonce s ok long =
      rw (not_empty (encode (seal key nonce (of_text s))))
        (rw (decrypt-sealed key nonce s ok long) refl)

  decrypt_field-plain :
      (key : String) (s : String) → is_encrypted s ≡ false → decrypt_field c (some key) s ≡ s
  unfolding decrypt_field decrypt decrypt_cut or_text is_encrypted
  decrypt_field-plain key s h = elim (Option-cases (cut_prefix prefix s)) [
    | inl e ↦ ground arith
    | inr (r, e) ↦ absurd (ground arith)
  ]

  without_key : (s : String) → decrypt_field c none s ≡ s
  unfolding decrypt_field
  without_key s = refl

  read_back :
      (key : String) (drawn : Option Bytes) (s : String)
      → ((n : Bytes) → drawn ≡ some n → is_nonce n ≡ true)
      → is_encrypted s ≡ false
      → decrypt_field c (some key) (or_text c (encrypt c key drawn s) s) ≡ s
  unfolding encrypt or_text
  read_back key none s long h = decrypt_field-plain key s h
  read_back key (some nonce) s long h = at_head (accepts key) refl
    where
      sealed : String
      sealed = prefix ++ encode (seal key nonce (of_text s))

      at_head :
          (b : Bool)
          → accepts key ≡ b
          → decrypt_field c (some key) (or_text c (if b then some sealed else none) s) ≡ s
      at_head true e = decrypt_field-sealed key nonce s e (long nonce refl)
      at_head false e = decrypt_field-plain key s h

  -- A field is read back as it was given, whichever key is set, if any, and whether or not it
  -- could be encrypted, where the cipher opens what it seals, the nonce has its length, and the
  -- text does not begin with the mark of an encrypted one.
  pub decrypt_field-encrypt_field :
      (key : Option String) (drawn : Option Bytes) (s : String)
      → ((n : Bytes) → drawn ≡ some n → is_nonce n ≡ true)
      → is_encrypted s ≡ false
      → decrypt_field c key (encrypt_field c key drawn s) ≡ s
  unfolding encrypt_field
  decrypt_field-encrypt_field none drawn s long h = without_key s
  decrypt_field-encrypt_field (some key) drawn s long h = at_head (s =s "" || is_encrypted s)
    where
      at_head :
          (b : Bool)
          → decrypt_field c (some key) (if b then s else or_text c (encrypt c key drawn s) s) ≡ s
      at_head true = decrypt_field-plain key s h
      at_head false = read_back key drawn s long h
