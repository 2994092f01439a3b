-- ===== src/Storage/Writer/Columns.antt =====
-- The pivot from rows to columns in `_flush_key` and in `write_dataframe`, against its meaning.
use Prim.Native.String.{String}
use crypto_data_aggregator.Prelude.{
  ◌≡◌, ◌≢◌, refl, sym, ap, ◌∙◌, inl, inr, Option, List, [], ◌∷◌, ◌++◌, map, All, Ascends,
  Bool-cases, subst, In, here, there, In-of_All, map_congr,
}
use mathlib.Core.List.{append-nil, append_assoc}
use crypto_data_aggregator.Prelude.Order.{text_order, eq, eq→≡, eq_refl}
use crypto_data_aggregator.Prelude.Dict.{get, get_list, append_at, get_list-append_at}
use crypto_data_aggregator.Storage.Writer.{Row}

-- No field name stands in the schema twice.
abbrev pub IsDistinct : List String → Type 0
IsDistinct schema = Ascends (λ f g. f ≢ g) schema

module _ {ℓ} {V : Type ℓ} where
  -- `r.get(f.name)`
  abbrev pub cell : String → Row V → Option V
  cell name r = get name r.fields

  -- `{f.name: [] for f in schema}`
  unfoldable pub blank : List String → List (String × List (Option V))
  blank [] = []
  blank (name ∷ schema) = (name, []) ∷ blank schema

  -- `for f in schema: columns[f.name].append(r.get(f.name))`
  unfoldable pub add_row :
      List String → Row V → List (String × List (Option V)) → List (String × List (Option V))
  add_row [] r columns = columns
  add_row (name ∷ schema) r columns = add_row schema r (append_at name (cell name r) columns)

  unfoldable pub add_rows :
      List String → List (Row V) → List (String × List (Option V)) → List (String × List (Option V))
  unfolding add_row
  add_rows schema [] columns = columns
  add_rows schema (r ∷ rows) columns = add_rows schema rows (add_row schema r columns)

  -- `[columns[f.name] for f in schema]`
  abbrev pub arrays : List String → List (String × List (Option V)) → List (List (Option V))
  arrays schema columns = map (λ name. get_list name columns) schema

  -- The columns that go into the table, for a schema given by its field names.
  unfoldable pub column_arrays : List String → List (Row V) → List (List (Option V))
  unfolding blank add_rows
  column_arrays schema rows = arrays schema (add_rows schema rows (blank schema))

  -- A column that a schema does not name stays as it is.
  add_row_other :
      (name : String) (schema : List String) (r : Row V) (columns : List (String × List (Option V)))
      → All (λ f. name ≢ f) schema
      → get_list name (add_row schema r columns) ≡ get_list name columns
  unfolding add_row
  add_row_other name [] r columns h = refl
  add_row_other name (f ∷ schema) r columns h =
      add_row_other name schema r (append_at f (cell f r) columns) h.1
      ∙ get_list-append_at f name (cell f r) columns
      ∙ (elim (Bool-cases (eq f name)) [
        | inl e ↦ absurd (h.0 (sym (eq→≡ f name e)))
        | inr e ↦ rw e refl
      ])

  get_list-blank : (name : String) (schema : List String) → get_list name (blank schema) ≡ []
  unfolding blank get_list get
  get_list-blank name [] = refl
  get_list-blank name (f ∷ schema) = elim (Bool-cases (eq f name)) [
    | inl e ↦ rw e refl
    | inr e ↦ rw e (get_list-blank name schema)
  ]

  -- A column that the schema names gets one cell.
  add_row_own :
      (name : String) (schema : List String) (r : Row V) (columns : List (String × List (Option V)))
      → IsDistinct schema
      → In name schema
      → get_list name (add_row schema r columns) ≡ get_list name columns ++ (cell name r ∷ [])
  unfolding add_row
  add_row_own name [] r columns d m = elim m [ ]
  add_row_own name (f ∷ schema) r columns d (here e) =
      add_row_other name schema r (append_at f (cell f r) columns)
        (subst (λ x. All (λ g. x ≢ g) schema) (sym e) d.0)
      ∙ get_list-append_at f name (cell f r) columns
      ∙ rw (sym e, eq_refl name) refl
  add_row_own name (f ∷ schema) r columns d (there m) =
      add_row_own name schema r (append_at f (cell f r) columns) d.1 m
      ∙ ap (λ l. l ++ (cell name r ∷ [])) (get_list-append_at f name (cell f r) columns)
      ∙ (elim (Bool-cases (eq f name)) [
        | inl e ↦ absurd (In-of_All (λ g. f ≢ g) schema d.0 m (eq→≡ f name e))
        | inr e ↦ rw e refl
      ])

  add_rows_own :
      (name : String) (schema : List String) (rows : List (Row V))
      (columns : List (String × List (Option V)))
      → IsDistinct schema
      → In name schema
      → get_list name (add_rows schema rows columns) ≡ get_list name columns ++ map (cell name) rows
  unfolding add_rows
  add_rows_own name schema [] columns d m = sym (append-nil (get_list name columns))
  add_rows_own name schema (r ∷ rows) columns d m =
      add_rows_own name schema rows (add_row schema r columns) d m
      ∙ ap (λ l. l ++ map (cell name) rows) (add_row_own name schema r columns d m)
      ∙ append_assoc (get_list name columns) (cell name r ∷ []) (map (cell name) rows)

  -- The arrays of a schema without repeated names: one for each field, in the schema's order, which
  -- holds that field of every row, in the order of the rows, and a null where a row lacks it.
  pub column_arrays_lem :
      (schema : List String) (rows : List (Row V))
      → IsDistinct schema
      → column_arrays schema rows ≡ map (λ name. map (cell name) rows) schema
  unfolding column_arrays
  column_arrays_lem schema rows d = map_congr _ _ schema (λ name m.
      add_rows_own name schema rows (blank schema) d m
      ∙ ap (λ l. l ++ map (cell name) rows) (get_list-blank name schema))
