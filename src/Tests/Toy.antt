-- ===== src/Tests/Toy.antt =====
-- Concrete functions in place of OpenSSL's, and a few files.
use seguridad_en_redes.Base.{
  ℕ, ◌≡◌, sym, ap, ◌∙◌, [], ◌∷◌, ◌++◌, Option, none, some, true, length, length-take, length-append,
  length-replicate, take, replicate, append_assoc, append-nil, ◌==◌, if◌then◌else◌, arith,
  Bool-cases, inl, inr, Bytes,
}
use seguridad_en_redes.Posix.{File, FileSystem, upto}
use seguridad_en_redes.Crypto.{Digest, IsLawful, Rsa, IsSized, IsPair, Base64, wrote}

-- The "digest" of `size` bytes: the front of the message, filled up with zeros.
abbrev pub digest : ℕ → Digest
digest size = record {
  Ctx = Bytes;
  init = [];
  update = ◌++◌;
  final = λ c. take size (c ++ replicate size 0);
}

pub digest-IsLawful : (size : ℕ) → IsLawful (digest size) size
digest-IsLawful size = record {
  update-append = λ c a b. append_assoc c a b;
  update-nil = λ c. append-nil c;
  length-final = λ c. omega (
    arith,
    length-take size (c ++ replicate size 0),
    length-append c (replicate {A = ℕ} size 0),
    length-replicate {A = ℕ} size 0,
  );
}

-- The "cipher" that leaves a block of the right size as it is.
unfoldable pub same_size : ℕ → Bytes → Option Bytes
same_size n m = if length m == n then some m else none

pub same_size-eq : (n : ℕ) (m c : Bytes) → same_size n m ≡ some c → (m ≡ c) × (length c ≡ n)
unfolding same_size
same_size-eq n m c e = elim (Bool-cases (length m == n)) [
  | inl y ↦ (ground arith, ground arith)
  | inr y ↦ absurd (ground arith)
]

abbrev pub rsa : Rsa
rsa = record {
  Key = ℕ;
  private_encrypt = λ n m k. same_size n m;
  public_decrypt = λ n c k. same_size n c;
  pem_private = λ bs. some 7;
  pem_public = λ bs. some 8;
}

pub same_size_self : (n : ℕ) (m : Bytes) → length m ≡ n → same_size n m ≡ some m
unfolding same_size
same_size_self n m e = ground arith

pub rsa-IsSized : IsSized rsa
rsa-IsSized = record {
  length-encrypt = λ n m c k e. (same_size-eq n m c e).1;
  length-decrypt = λ n c m k e. (same_size-eq n c m e).1;
}

pub rsa-IsPair : IsPair rsa 7 8
rsa-IsPair n m c e = let r = same_size-eq n m c e in same_size_self n c r.1 ∙ ap some (sym r.0)

-- A Base64 that leaves bytes as they are.
abbrev pub base64 : Base64
base64 = record { encode = λ bs. bs; decode = λ bs. bs; write = wrote }

-- Three bytes, delivered in two reads.
abbrev pub message : File
message = record { rest = 1 ∷ 2 ∷ 3 ∷ []; turns = upto 0 ∷ upto 5 ∷ []; closes = true }

abbrev pub key_file : File
key_file = record { rest = 9 ∷ 8 ∷ []; turns = upto 0 ∷ []; closes = true }

-- `m` is the message; `k` the key; there is nothing else.
abbrev pub files : FileSystem
files [] = none
files (c ∷ _) = if c == b'm' then some message else if c == b'k' then some key_file else none
