-- ===== src/Rpc/Idempotency/Hash.antt =====
-- HashRequest of internal/rpc/idempotency.go. SHA-256 and the hexadecimal encoder are parameters.
use agentic_coop_db.Prelude.{◌≡◌, ◌↔◌, refl, arith, [], ◌∷◌, ◌++◌, Bytes, Lacks}

-- The bytes that are written to the hash.
unfoldable pub payload : (method path body : Bytes) → Bytes
payload method path body = method ++ (0 ∷ (path ++ (0 ∷ body)))

unfoldable pub hash_request :
    (sha256 : Bytes → Bytes) (hex : Bytes → Bytes) (method path body : Bytes) → Bytes
hash_request sha256 hex method path body = hex (sha256 (payload method path body))

cut_same :
    (p q r s : Bytes) → Lacks 0 p → Lacks 0 q → p ++ (0 ∷ r) ≡ q ++ (0 ∷ s) → (p ≡ q) × (r ≡ s)
cut_same [] [] r s h h' e = ground arith
cut_same [] (d ∷ q) r s h h' e = ground arith
cut_same (c ∷ p) [] r s h h' e = ground arith
cut_same (c ∷ p) (d ∷ q) r s h h' e =
    let tail : p ++ (0 ∷ r) ≡ q ++ (0 ∷ s) = ground arith in
    let (same, rest) = cut_same p q r s h.1 h'.1 tail in (ground arith, rest)

-- Two requests whose methods and paths hold no zero byte are hashed from the same bytes exactly where
-- method, path and body are the same; the bodies may hold any bytes.
pub payload_iff :
    (m p b m' p' b' : Bytes)
    → Lacks 0 m
    → Lacks 0 m'
    → Lacks 0 p
    → Lacks 0 p'
    → (payload m p b ≡ payload m' p' b') ↔ ((m ≡ m') × (p ≡ p') × (b ≡ b'))
unfolding payload
payload_iff m p b m' p' b' hm hm' hp hp' = (
  (λ e.
      let (same, rest) = cut_same m m' _ _ hm hm' e in
      let (same', rest') = cut_same p p' b b' hp hp' rest in (same, same', rest')),
  (λ (em, ep, eb). rw (em, ep, eb) refl),
)
