-- ===== src/Schema/Normalize/Required.antt =====
-- What the normalization of a table of fields leaves of the key `required`.
use quick_api.Base.{
  Text, codes, Dict, Value, Fields, obj, obj_of, to_dict, get, get-pop, false, Option, none, some,
  ◌≡◌, inl, inr, refl, sym, ap, ◌∙◌, All, text_eq, str_beq, ok, Result-cases, ok_eq,
}
use quick_api.Base.Values.{no_field, field, to_dict-to_fields}
use quick_api.Schema.Normalize.{
  Table, add_field, table_schema, normalize_table, normalize_rule, normalize, is_schema,
}

-- The key `required` of a rule, if it has it.
abbrev pub required_of : Value → Option Value
required_of (obj fields) = get (to_dict fields) (codes "required")
required_of v = none

-- No rule has the key `required`.
abbrev pub AreUnmarked : Dict Value → Type 0
AreUnmarked rules = All (λ e. required_of e.1 ≡ none) rules

add_field-AreUnmarked :
    (name : Text) (rule : Dict Value) (t : Table)
    → AreUnmarked t.rules
    → AreUnmarked (add_field name rule t).rules
unfolding add_field obj_of codes str_beq
add_field-AreUnmarked name rule t unmarked = (rw (to_dict-to_fields, get-pop) refl, unmarked)

normalize_table-AreUnmarked :
    (fs : Fields) (t : Table) → normalize_table fs ≡ ok t → AreUnmarked t.rules
unfolding normalize_table
normalize_table-AreUnmarked no_field t e = rw (sym (ok_eq _ _ e)) tt
normalize_table-AreUnmarked (field k v fs) t e = elim (Result-cases (normalize_rule v)) [
  | inr (x, bad) ↦ absurd (cc (rw (bad) at e))
  | inl (rule, fine) ↦ elim (Result-cases (normalize_table fs)) [
    | inr (x, bad) ↦ absurd (cc (rw (fine, bad) at e))
    | inl (rest, also) ↦
        rw (sym (ok_eq _ _ (rw (fine, also) at e)))
          (add_field-AreUnmarked k rule rest (normalize_table-AreUnmarked fs rest also))
  ]
]

properties-table_schema :
    (t : Table) → get (table_schema t) (codes "properties") ≡ some (obj_of t.rules)
unfolding get table_schema codes str_beq
properties-table_schema t = refl

-- In the normal form of a table of fields, no rule has the key `required`, whatever the rules of the
-- fields declare: the mark of a field that may be missing is taken away, and so is the list of the
-- required fields of a rule that is itself a JSON schema or a table of fields.
pub normalize-AreUnmarked :
    (fields : Fields) (d : Dict Value)
    → is_schema fields ≡ false
    → normalize (obj fields) ≡ ok d
    → (rules : Dict Value) × (get d (codes "properties") ≡ some (obj_of rules)) × AreUnmarked rules
unfolding normalize
normalize-AreUnmarked fields d plain e = elim (Result-cases (normalize_table fields)) [
  | inr (x, bad) ↦ absurd (cc (rw (plain, bad) at e))
  | inl (t, fine) ↦
      let same = ok_eq _ _ (rw (plain, fine) at e) in
      (
        t.rules,
        ap (λ s. get s (codes "properties")) (sym same) ∙ properties-table_schema t,
        normalize_table-AreUnmarked fields t fine,
      )
]
