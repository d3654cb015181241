-- ===== src/Mcp/Tools/Rows.antt =====
-- The rows that vector_upsert of internal/mcp/tools.go sends: how the placeholders and the arguments
-- go together.
use agentic_coop_db.Prelude.{
  ℕ, suc, zero, ◌+◌, ◌*◌, ◌≡◌, refl, sym, ap, ◌∙◌, inl, inr, arith, false, some, List, [], ◌∷◌,
  ◌++◌, Bytes, codes, length, map, Result, ok, Result-cases, Option, Option-cases,
}
use agentic_coop_db.Auth.Middleware.{itoa}
use agentic_coop_db.Mcp.Values
use agentic_coop_db.Mcp.Values.{
  Floats, Value, Members, lookup, text_or_empty, as_object, as_array, as_number, format_vector,
}
use agentic_coop_db.Mcp.Tools.{Param, given, values_clause}
use agentic_coop_db.Mcp.Tools.Plans.{numbers, some_elements, upsert_row, upsert_rows}

-- The row of VALUES with the placeholders `a`, `b` and `c`.
abbrev pub clause : (a b c : ℕ) → Bytes
clause a b c =
    codes "($"
    ++ (itoa false a
        ++ (codes ", $"
            ++ (itoa false b ++ (codes "::jsonb, $" ++ (itoa false c ++ codes "::vector)")))))

-- `n` rows that take the placeholders one after the other, from `next` on.
abbrev pub clauses_from : (next n : ℕ) → List Bytes
clauses_from next zero = []
clauses_from next (suc n) =
    clause next (suc next) (suc (suc next)) ∷ clauses_from (suc (suc (suc next))) n

-- What a row of the tool's argument is sent as: its id, its metadata as JSON and its vector.
pub record IsRow (Number : Type 0) (f : Floats Number)
    (marshal : Members Number → Result Bytes Bytes) (v : Value Number) (a b c : Param Number)
    : Type 0 where
  pub members : Members Number
  pub meta_value : Value Number
  pub meta : Members Number
  pub meta_json : Bytes
  pub vec : List Number
  pub is_object : as_object Number (some v) ≡ some members
  pub metadata : lookup Number members (codes "metadata") ≡ some meta_value
  pub meta_object : as_object Number (some meta_value) ≡ some meta
  pub encoded : marshal meta ≡ ok meta_json
  pub id : a ≡ given (Values.text (text_or_empty Number (lookup Number members (codes "id"))))
  pub json : b ≡ given (Values.text meta_json)
  pub elements :
      as_array Number (lookup Number members (codes "vector")) ≡ some (map Values.number vec)
  pub vector : c ≡ given (Values.text (format_vector Number f vec))

-- The arguments of the rows, three each and in the order of the rows.
abbrev pub AreRows :
    (Number : Type 0) (f : Floats Number) (marshal : Members Number → Result Bytes Bytes)
    → List (Value Number)
    → List (Param Number)
    → Type 0
AreRows Number f marshal [] [] = Unit
AreRows Number f marshal (v ∷ vs) (a ∷ b ∷ c ∷ ps) =
    IsRow Number f marshal v a b c × AreRows Number f marshal vs ps
AreRows Number f marshal vs ps = ⊥

values_clause-clause : (i a : ℕ) → i * 3 + 1 ≡ a → values_clause i ≡ clause a (suc a) (suc (suc a))
unfolding values_clause
values_clause-clause i a h =
    let second : i * 3 + 2 ≡ suc a = omega arith in
    let third : i * 3 + 3 ≡ suc (suc a) = omega arith in rw (h, second, third) refl

module _ (Number : Type 0) (f : Floats Number) (quote : Bytes → Bytes)
    (marshal : Members Number → Result Bytes Bytes) where
  as_number_lem :
      (v : Value Number) (x : Number) → as_number Number v ≡ some x → v ≡ Values.number x
  as_number_lem Values.null x h = ground arith
  as_number_lem (Values.boolean b) x h = ground arith
  as_number_lem (Values.number y) x h = ground arith
  as_number_lem (Values.text s) x h = ground arith
  as_number_lem (Values.array vs) x h = ground arith
  as_number_lem (Values.object m) x h = ground arith

  as_array_lem :
      (vs : List (Value Number)) (msg : Bytes) (a : Option (Value Number))
      → some_elements Number f quote marshal a msg ≡ ok vs
      → as_array Number a ≡ some vs
  as_array_lem vs msg a h = elim (Option-cases (as_array Number a)) [
    | inl e ↦ ground arith
    | inr ([], e) ↦ ground arith
    | inr (x ∷ xs, e) ↦ ground arith
  ]

  numbers-map :
      (place : Bytes) (j : ℕ) (vs : List (Value Number)) (xs : List Number)
      → numbers Number f quote marshal place j vs ≡ ok xs
      → vs ≡ map Values.number xs
  unfolding numbers
  numbers-map place j [] [] h = refl
  numbers-map place j [] (x ∷ xs) h = ground arith
  numbers-map place j (v ∷ vs) xs h = elim (Option-cases (as_number Number v)) [
    | inl e ↦ ground arith
    | inr (x, e) ↦ elim (Result-cases (numbers Number f quote marshal place (j + 1) vs)) [
      | inr (m, k) ↦ ground arith
      | inl (ys, k) ↦
          let same : xs ≡ x ∷ ys = ground arith in
          rw (same, as_number_lem v x e, numbers-map place (j + 1) vs ys k) refl
    ]
  ]

  abbrev elements_of : ℕ → Members Number → Result Bytes (List (Value Number))
  elements_of i row =
      some_elements Number f quote marshal (lookup Number row (codes "vector"))
        (codes "rows[" ++ (itoa false i ++ codes "].vector must be a non-empty array"))

  upsert_row-IsRow :
      (i : ℕ) (v : Value Number) (ps : List (Param Number))
      → upsert_row Number f quote marshal i v ≡ ok ps
      → (a b c : Param Number) × (ps ≡ a ∷ b ∷ c ∷ []) × IsRow Number f marshal v a b c
  unfolding upsert_row
  upsert_row-IsRow i v ps h = elim (Option-cases (as_object Number (some v))) [
    | inl e ↦ ground arith
    | inr (row, e) ↦ elim (Option-cases (lookup Number row (codes "metadata"))) [
      | inl e1 ↦ ground arith
      | inr (m, e1) ↦ elim (Option-cases (as_object Number (some m))) [
        | inl e2 ↦ ground arith
        | inr (meta, e2) ↦ elim (Result-cases (marshal meta)) [
          | inr (x, e3) ↦ ground arith
          | inl (json, e3) ↦ elim (Result-cases (elements_of i row)) [
            | inr (x, e4) ↦ ground arith
            | inl (vs, e4) ↦
                elim (Result-cases (
                  numbers Number f quote marshal
                    (codes "rows[" ++ (itoa false i ++ codes "].vector")) 0 vs)) [
                      | inr (x, e5) ↦ ground arith
                      | inl (vec, e5) ↦ (
                        given (Values.text (text_or_empty Number (lookup Number row (codes "id")))),
                        given (Values.text json),
                        given (Values.text (format_vector Number f vec)),
                        ground arith,
                        record {
                          members = row;
                          meta_value = m;
                          meta = meta;
                          meta_json = json;
                          vec = vec;
                          is_object = e;
                          metadata = e1;
                          meta_object = e2;
                          encoded = e3;
                          id = refl;
                          json = refl;
                          elements =
                              as_array_lem vs _ (lookup Number row (codes "vector")) e4
                              ∙ ap some (numbers-map _ 0 vs vec e5);
                          vector = refl;
                        },
                      )
                    ]
          ]
        ]
      ]
    ]
  ]

  pub upsert_rows_lem :
      (i next : ℕ) (rows : List (Value Number)) (cs : List Bytes) (ps : List (Param Number))
      → i * 3 + 1 ≡ next
      → upsert_rows Number f quote marshal i rows ≡ ok (cs, ps)
      → (cs ≡ clauses_from next (length rows)) × AreRows Number f marshal rows ps
  unfolding upsert_rows
  upsert_rows_lem i next [] cs ps at h =
      let e : cs ≡ [] = ground arith in let e' : ps ≡ [] = ground arith in (e, rw e' tt)
  upsert_rows_lem i next (v ∷ vs) cs ps at h =
      elim (Result-cases (upsert_row Number f quote marshal i v)) [
        | inr (e, p) ↦ ground arith
        | inl (params, p) ↦ elim (Result-cases (upsert_rows Number f quote marshal (i + 1) vs)) [
          | inr (e, q) ↦ ground arith
          | inl ((cs', more), q) ↦
              let (same, count) =
                upsert_rows_lem (i + 1) (suc (suc (suc next))) vs cs' more (omega arith) q in
              let (a, b, c, three, row) = upsert_row-IsRow i v params p in
              let e : values_clause i ∷ cs' ≡ cs = ground arith in
              let joined : params ++ more ≡ ps = ground arith in
              let e' : a ∷ b ∷ c ∷ more ≡ ps = sym (ap (λ z. z ++ more) three) ∙ joined in
              (
                sym e
                    ∙ ap (λ z. values_clause i ∷ z) same
                    ∙ ap (λ z. z ∷ clauses_from (suc (suc (suc next))) (length vs))
                        (values_clause-clause i next at),
                rw (← e') (row, count),
              )
        ]
      ]
