-- ===== src/Crypto.antt =====
-- The library calls of OpenSSL, as parameters: a digest, raw RSA, PEM keys and Base64 streams.
use seguridad_en_redes.Base.{ℕ, ◌≡◌, ◌++◌, [], length, Option, some, Bytes}

-- `SHA1_*` or `SHA512_*`: contexts, and the three calls.
pub record Digest : Type 1 where
  pub Ctx : Type 0
  pub init : Ctx
  pub update : Ctx → Bytes → Ctx
  pub final : Ctx → Bytes

-- The digest of one message.
abbrev pub hash : Digest → Bytes → Bytes
hash D m = D.final (D.update D.init m)

-- Documented: data may be fed in pieces, and the result has the digest's size.
pub record IsLawful (D : Digest) (size : ℕ) : Type 0 where
  pub update-append : (c : D.Ctx) (a b : Bytes) → D.update (D.update c a) b ≡ D.update c (a ++ b)
  pub update-nil : (c : D.Ctx) → D.update c [] ≡ c
  pub length-final : (c : D.Ctx) → length (D.final c) ≡ size

-- RSA without padding and PEM key files. `none` is the failure of a call: -1, or a null key.
pub record Rsa : Type 1 where
  pub Key : Type 0
  pub private_encrypt : ℕ → Bytes → Key → Option Bytes
  pub public_decrypt : ℕ → Bytes → Key → Option Bytes
  pub pem_private : Bytes → Option Key
  pub pem_public : Bytes → Option Key

-- Documented: a result is as long as the modulus, which without padding is as long as the input.
pub record IsSized (R : Rsa) : Type 0 where
  pub length-encrypt :
      (n : ℕ) (m c : Bytes) (k : R.Key) → R.private_encrypt n m k ≡ some c → length c ≡ n
  pub length-decrypt :
      (n : ℕ) (c m : Bytes) (k : R.Key) → R.public_decrypt n c k ≡ some m → length m ≡ n

-- Documented: the public key of a pair takes back what its private key did.
abbrev pub IsPair : (R : Rsa) → R.Key → R.Key → Type 0
IsPair R priv pub_key =
    (n : ℕ) (m c : Bytes)
    → R.private_encrypt n m priv ≡ some c
    → R.public_decrypt n c pub_key ≡ some m

-- The result of `BIO_write`: what it wrote, 0 or -1, or -2.
pub data Written : Type 0 where
  wrote no_data unsupported : Written

-- A Base64 filter: what it writes for some bytes, what it reads from some text, and how the write
-- to standard output goes.
pub record Base64 : Type 0 where
  pub encode : Bytes → Bytes
  pub decode : Bytes → Bytes
  pub write : Written
