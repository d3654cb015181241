-- ===== src/Db/Migrate/Redact.antt =====
-- What redactSecrets of internal/db/migrate.go leaves of a secret in an error.
use agentic_coop_db.Prelude.{
  ℕ, zero, suc, ◌-◌, ◌≡◌, refl, sym, ap, ◌∙◌, inl, inr, arith, Bool, true, false, ◌||◌, some, List,
  [], ◌∷◌, ◌++◌, Bytes, get_elem?, bytes_eq, bytes_eq_iff, nat_eq, cut_prefix, length, All,
  Bool-cases, if◌then◌else◌, Lacks,
}
use agentic_coop_db.Db.Migrate.{has_prefix, has_sub, replace_from, redacted, redact_text}

-- No byte of the text stands in `new`.
abbrev pub IsApart : (new : Bytes) → Bytes → Type 0
IsApart new = All (λ c. Lacks c new)

has_prefix-cons :
    (p : ℕ) (ps : Bytes) (c : ℕ) (s : Bytes)
    → has_prefix (p ∷ ps) (c ∷ s) ≡ (if nat_eq p c then has_prefix ps s else false)
unfolding has_prefix cut_prefix
has_prefix-cons p ps c s = ground arith

has_prefix_nil : (s : Bytes) → has_prefix [] s ≡ true
unfolding has_prefix cut_prefix
has_prefix_nil s = refl

has_prefix_empty : (p : ℕ) (ps : Bytes) → has_prefix (p ∷ ps) [] ≡ false
unfolding has_prefix cut_prefix
has_prefix_empty p ps = refl

or_left : (a b : Bool) → a ≡ true → (a || b) ≡ true
or_left a b h = ground arith

or_right : (a b : Bool) → b ≡ true → (a || b) ≡ true
or_right a b h = ground arith

module _ (old : Bytes) (n : ℕ) (ns : Bytes) where
  replace_hit :
      (c : ℕ) (msg : Bytes)
      → has_prefix old (c ∷ msg) ≡ true
      → replace_from old (n ∷ ns) 0 (c ∷ msg)
        ≡ n ∷ (ns ++ replace_from old (n ∷ ns) (length old - 1) msg)
  unfolding replace_from
  replace_hit c msg h = rw h

  replace_miss :
      (c : ℕ) (msg : Bytes)
      → has_prefix old (c ∷ msg) ≡ false
      → replace_from old (n ∷ ns) 0 (c ∷ msg) ≡ c ∷ replace_from old (n ∷ ns) 0 msg
  unfolding replace_from
  replace_miss c msg h = rw h

  -- A text with no byte of the replacement that stands at the front afterwards stood there before.
  prefix_before :
      (p msg : Bytes)
      → IsApart (n ∷ ns) p
      → has_prefix p (replace_from old (n ∷ ns) 0 msg) ≡ true
      → has_prefix p msg ≡ true
  unfolding replace_from
  prefix_before [] msg a h = has_prefix_nil msg
  prefix_before (p ∷ ps) [] a h = h
  prefix_before (p ∷ ps) (c ∷ msg) (a, rest) h = elim (Bool-cases (has_prefix old (c ∷ msg))) [
    | inl e ↦
        let front = has_prefix-cons p ps n (ns ++ replace_from old (n ∷ ns) (length old - 1) msg) in
        let differ : nat_eq n p ≡ false = a.0 in
        let hit = rw (replace_hit c msg e) at h in ground arith
    | inr e ↦
        let front = has_prefix-cons p ps c (replace_from old (n ∷ ns) 0 msg) in
        let front' = has_prefix-cons p ps c msg in
        let miss = rw (replace_miss c msg e) at h in ground (arith, prefix_before ps msg rest)
  ]

  sub_append :
      (p : ℕ) (ps : Bytes) (m s : Bytes)
      → Lacks p m
      → has_sub (p ∷ ps) (m ++ s) ≡ has_sub (p ∷ ps) s
  unfolding has_sub
  sub_append p ps [] s a = refl
  sub_append p ps (c ∷ m) s (a, rest) =
      ground (arith, has_prefix-cons p ps c (m ++ s), sub_append p ps m s rest)

  -- Nor does it stand anywhere afterwards where it did not before.
  sub_before :
      (p : ℕ) (ps : Bytes) (k : ℕ) (msg : Bytes)
      → IsApart (n ∷ ns) (p ∷ ps)
      → has_sub (p ∷ ps) (replace_from old (n ∷ ns) k msg) ≡ true
      → has_sub (p ∷ ps) msg ≡ true
  unfolding has_sub replace_from
  sub_before p ps k [] a h = h
  sub_before p ps (suc k) (c ∷ msg) a h =
      or_right (has_prefix (p ∷ ps) (c ∷ msg)) (has_sub (p ∷ ps) msg) (sub_before p ps k msg a h)
  sub_before p ps zero (c ∷ msg) a h = elim (Bool-cases (has_prefix old (c ∷ msg))) [
    | inl e ↦
        let rest = replace_from old (n ∷ ns) (length old - 1) msg in
        let within : has_sub (p ∷ ps) rest ≡ true =
          sym (sub_append p ps (n ∷ ns) rest a.0)
          ∙ ap (has_sub (p ∷ ps)) (sym (replace_hit c msg e))
          ∙ h in
        or_right (has_prefix (p ∷ ps) (c ∷ msg)) (has_sub (p ∷ ps) msg)
          (sub_before p ps (length old - 1) msg a within)
    | inr e ↦
        let within : has_sub (p ∷ ps) (c ∷ replace_from old (n ∷ ns) 0 msg) ≡ true =
          ap (has_sub (p ∷ ps)) (sym (replace_miss c msg e)) ∙ h in
        elim (Bool-cases (has_prefix (p ∷ ps) (c ∷ replace_from old (n ∷ ns) 0 msg))) [
          | inl f ↦ or_left (has_prefix (p ∷ ps) (c ∷ msg)) (has_sub (p ∷ ps) msg) (
              prefix_before (p ∷ ps) (c ∷ msg) a
                (ap (has_prefix (p ∷ ps)) (replace_miss c msg e) ∙ f))
          | inr f ↦
              or_right (has_prefix (p ∷ ps) (c ∷ msg)) (has_sub (p ∷ ps) msg)
                (sub_before p ps zero msg a (ground arith))
        ]
  ]

-- The text that was replaced stands nowhere afterwards.
replace_gone :
    (p : ℕ) (ps : Bytes) (n : ℕ) (ns : Bytes) (k : ℕ) (msg : Bytes)
    → IsApart (n ∷ ns) (p ∷ ps)
    → has_sub (p ∷ ps) (replace_from (p ∷ ps) (n ∷ ns) k msg) ≡ false
unfolding has_sub replace_from
replace_gone p ps n ns k [] a = has_prefix_empty p ps
replace_gone p ps n ns (suc k) (c ∷ msg) a = replace_gone p ps n ns k msg a
replace_gone p ps n ns zero (c ∷ msg) a = elim (Bool-cases (has_prefix (p ∷ ps) (c ∷ msg))) [
  | inl e ↦
      ap (has_sub (p ∷ ps)) (replace_hit (p ∷ ps) n ns c msg e)
      ∙ sub_append (p ∷ ps) n ns p ps (n ∷ ns) _ a.0
      ∙ replace_gone p ps n ns (length (p ∷ ps) - 1) msg a
  | inr e ↦
      let out = replace_from (p ∷ ps) (n ∷ ns) 0 msg in
      let gone = replace_gone p ps n ns zero msg a in
      let front : has_prefix (p ∷ ps) (c ∷ out) ≡ false =
        elim (Bool-cases (has_prefix (p ∷ ps) (c ∷ out))) [
          | inr f ↦ f
          | inl f ↦
              let before =
                prefix_before (p ∷ ps) n ns (p ∷ ps) (c ∷ msg) a
                  (ap (has_prefix (p ∷ ps)) (replace_miss (p ∷ ps) n ns c msg e) ∙ f) in
              ground arith
        ] in
      ap (has_sub (p ∷ ps)) (replace_miss (p ∷ ps) n ns c msg e) ∙ ground arith
]

-- What does not stand in the message is not brought in by the other secrets.
redact_absent :
    (p : ℕ) (ps msg : Bytes) (secrets : List Bytes)
    → IsApart redacted (p ∷ ps)
    → has_sub (p ∷ ps) msg ≡ false
    → has_sub (p ∷ ps) (redact_text msg secrets) ≡ false
unfolding redact_text
redact_absent p ps msg [] a h = h
redact_absent p ps msg (s ∷ secrets) a h =
    let replaced : has_sub (p ∷ ps) (replace_from s redacted 0 msg) ≡ false =
      elim (Bool-cases (has_sub (p ∷ ps) (replace_from s redacted 0 msg))) [
        | inr f ↦ f
        | inl f ↦ let before = sub_before s b'R' _ p ps 0 msg a f in ground arith
      ] in
    let here = redact_absent p ps msg secrets a h in
    let there = redact_absent p ps (replace_from s redacted 0 msg) secrets a replaced in
    ground arith

pub redact_text_hides :
    (msg : Bytes) (secrets : List Bytes) (i p : ℕ) (ps : Bytes)
    → get_elem? secrets i ≡ some (p ∷ ps)
    → IsApart redacted (p ∷ ps)
    → has_sub (p ∷ ps) (redact_text msg secrets) ≡ false
unfolding redact_text
redact_text_hides msg [] i p ps at a = ground arith
redact_text_hides msg (s ∷ secrets) zero p ps at a =
    let same : s ≡ p ∷ ps = ground arith in
    let named : bytes_eq s [] ≡ false = rw same (ground (arith, bytes_eq_iff (p ∷ ps) [])) in
    let gone =
      redact_absent p ps (replace_from s redacted 0 msg) secrets a
        (rw same (replace_gone p ps b'R' _ 0 msg a)) in
    elim (Bool-cases (has_sub s msg)) [
      | inl e ↦ rw (named, e, redact_text) gone
      | inr e ↦
          rw (named, e, redact_text)
            (redact_absent p ps msg secrets a (ap (λ z. has_sub z msg) (sym same) ∙ e))
    ]
redact_text_hides msg (s ∷ secrets) (suc i) p ps at a =
    let first = redact_text_hides msg secrets i p ps at a in
    let second = redact_text_hides (replace_from s redacted 0 msg) secrets i p ps at a in
    ground arith
