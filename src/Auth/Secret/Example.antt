-- ===== src/Auth/Secret/Example.antt =====
-- Functions that keep the laws of the parameter Crypto: a hash that copies the secret, and hexadecimal.
use agentic_coop_db.Prelude.{
  ℕ, zero, suc, ◌+◌, ◌*◌, ◌/◌, ◌%◌, ◌-◌, ◌<◌, ◌≡◌, refl, Option, none, some, [], ◌∷◌, Bytes, codes,
  bytes_eq, bytes_eq_refl, length, All, Lacks, if◌then◌else◌, arith,
}
use agentic_coop_db.Auth.Secret.{Crypto}

abbrev fill : ℕ → Bytes → Bytes
fill zero s = []
fill (suc n) [] = 0 ∷ fill n []
fill (suc n) (b ∷ s) = (b % 256) ∷ fill n s

pub length-fill : (n : ℕ) (s : Bytes) → length (fill n s) ≡ n
length-fill zero s = refl
length-fill (suc n) [] = ground (arith, length-fill n [])
length-fill (suc n) (b ∷ s) = ground (arith, length-fill n s)

pub fill_bytes : (n : ℕ) (s : Bytes) → All (λ c. c < 256) (fill n s)
fill_bytes zero s = tt
fill_bytes (suc n) [] = (omega arith, fill_bytes n [])
fill_bytes (suc n) (b ∷ s) = (omega arith, fill_bytes n s)

abbrev hex : Bytes → Bytes
hex [] = []
hex (b ∷ s) = (b'a' + b / 16) ∷ (b'a' + b % 16) ∷ hex s

abbrev prepend : ℕ → Option Bytes → Option Bytes
prepend b none = none
prepend b (some s) = some (b ∷ s)

abbrev unhex : Bytes → Option Bytes
unhex [] = some []
unhex (_ ∷ []) = none
unhex (a ∷ b ∷ s) = prepend (((a - b'a') * 16 + (b - b'a')) % 256) (unhex s)

prepend_bytes :
    (b : ℕ) (o : Option Bytes) (r : Bytes)
    → b < 256
    → ((q : Bytes) → o ≡ some q → All (λ c. c < 256) q)
    → prepend b o ≡ some r
    → All (λ c. c < 256) r
prepend_bytes b none r hb ho h = cc
prepend_bytes b (some s) [] hb ho h = tt
prepend_bytes b (some s) (a ∷ r) hb ho h =
    let e : b ≡ a = ground arith in let e' : s ≡ r = ground arith in (rw e at hb, ho r (rw e' refl))

pub unhex_bytes : (s r : Bytes) → unhex s ≡ some r → All (λ c. c < 256) r
unhex_bytes [] [] h = tt
unhex_bytes [] (b ∷ r) h = ground arith
unhex_bytes (a ∷ []) r h = cc
unhex_bytes (a ∷ b ∷ s) r h =
    prepend_bytes (((a - b'a') * 16 + (b - b'a')) % 256) (unhex s) r (omega arith) (unhex_bytes s) h

pub unhex-hex : (s : Bytes) → All (λ c. c < 256) s → unhex (hex s) ≡ some s
unhex-hex [] h = refl
unhex-hex (b ∷ s) (hb, hs) =
    let e : ((b'a' + b / 16 - b'a') * 16 + (b'a' + b % 16 - b'a')) % 256 ≡ b = omega arith in
    rw (unhex-hex s hs, e)

pub hex-Lacks : (s : Bytes) → Lacks b'$' (hex s)
hex-Lacks [] = tt
hex-Lacks (b ∷ s) = (ground arith, (ground arith, hex-Lacks s))

abbrev pub crypto : Crypto
crypto = record {
  id_key = λ secret _ _ _ _ n. fill n secret;
  encode = hex;
  decode = unhex;
  scan_version = λ s. if bytes_eq s (codes "v=19") then some 19 else none;
  scan_params = λ s. if bytes_eq s (codes "m=65536,t=2,p=2") then some (65536, 2, 2) else none;
  length-id_key = λ secret _ _ _ _ n. length-fill n secret;
  id_key_bytes = λ secret _ _ _ _ n. fill_bytes n secret;
  decode_bytes = unhex_bytes;
  decode-encode = unhex-hex;
  encode-Lacks = hex-Lacks;
  scan_version_written = rw (bytes_eq_refl (codes "v=19"));
  scan_params_written = rw (bytes_eq_refl (codes "m=65536,t=2,p=2"));
}
