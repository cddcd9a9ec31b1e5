-- ===== src/Schema/Shape/Limits.antt =====
-- What a body that `validate_runtime_shape` finds nothing against satisfies.
use quick_api.Base.{
  ℕ, suc, zero, ◌≤◌, Text, Value, Items, Fields, null, bool, int, dec, str, arr, obj, false, List,
  [], ◌∷◌, ◌++◌, ◌≡◌, ◌↔◌, refl, map, if◌then◌else◌, ltb, length, arith, ap,
}
use quick_api.Base.Values.{no_item, item, no_field, field}
use quick_api.Schema.Shape.{
  ShapeLimits, count, width, has_control, too_long, too_many, too_wide, bad_key, validate_shape,
  validate_items, validate_fields, validate_runtime_shape,
}

module _ (lim : ShapeLimits) where
  unfoldable mutual
    -- The value, which lies at this depth, keeps every limit.
    pub IsShaped : Value → ℕ → Type 0
    IsShaped (str s) depth = (depth ≤ lim.max_depth) × (length s ≤ lim.max_string_length)
    IsShaped (arr vs) depth =
        (depth ≤ lim.max_depth) × (count vs ≤ lim.max_array_length) × AreShaped vs (suc depth)
    IsShaped (obj fs) depth =
        (depth ≤ lim.max_depth) × (width fs ≤ lim.max_object_keys) × FieldsShaped fs (suc depth)
    IsShaped null depth = depth ≤ lim.max_depth
    IsShaped (bool b) depth = depth ≤ lim.max_depth
    IsShaped (int n) depth = depth ≤ lim.max_depth
    IsShaped (dec m k) depth = depth ≤ lim.max_depth

    pub AreShaped : Items → ℕ → Type 0
    AreShaped no_item depth = Unit
    AreShaped (item v vs) depth = IsShaped v depth × AreShaped vs depth

    pub FieldsShaped : Fields → ℕ → Type 0
    FieldsShaped no_field depth = Unit
    FieldsShaped (field k v fs) depth =
        (has_control k ≡ false) × IsShaped v depth × FieldsShaped fs depth

nil_append {ℓ} : {A : Type ℓ} (xs ys : List A) → xs ++ ys ≡ [] → (xs ≡ []) × (ys ≡ [])
nil_append [] ys e = (refl, e)
nil_append (x ∷ xs) ys e = absurd (cc e)

append_nil {ℓ} : {A : Type ℓ} (xs ys : List A) → xs ≡ [] → ys ≡ [] → xs ++ ys ≡ []
append_nil xs ys e k = rw (e, k) refl

nil_of_map {ℓ κ} : {A : Type ℓ} {B : Type κ} (f : A → B) (xs : List A) → map f xs ≡ [] → xs ≡ []
nil_of_map f [] e = refl
nil_of_map f (x ∷ xs) e = absurd (cc e)

-- A limit that is kept leaves what follows.
kept_of_nil {ℓ} :
    {A : Type ℓ} (limit n : ℕ) (x : A) (xs : List A)
    → (if ltb limit n then x ∷ [] else xs) ≡ []
    → (n ≤ limit) × (xs ≡ [])
kept_of_nil limit n x xs e = ground (arith, e)

nil_of_kept {ℓ} :
    {A : Type ℓ} (limit n : ℕ) (x : A) (xs : List A)
    → n ≤ limit
    → xs ≡ []
    → (if ltb limit n then x ∷ [] else xs) ≡ []
nil_of_kept limit n x xs h e = ground (arith, h, e)

module _ (quoted : Text → Text) (lim : ShapeLimits) where
  bad_key-nil :
      (location key : Text) → (bad_key quoted lim location key ≡ []) ↔ (has_control key ≡ false)
  unfolding bad_key
  bad_key-nil location key = (λ e. ground (arith, e), λ e. ground (arith, e))

  mutual
    unfolding validate_shape validate_items validate_fields IsShaped AreShaped FieldsShaped too_long
        too_many too_wide

    IsShaped-of_nil :
        (v : Value) (location : Text) (depth : ℕ)
        → validate_shape quoted lim v location depth ≡ []
        → IsShaped lim v depth
    IsShaped-of_nil null location depth e = (kept_of_nil lim.max_depth depth _ [] e).0
    IsShaped-of_nil (bool b) location depth e = (kept_of_nil lim.max_depth depth _ [] e).0
    IsShaped-of_nil (int n) location depth e = (kept_of_nil lim.max_depth depth _ [] e).0
    IsShaped-of_nil (dec m k) location depth e = (kept_of_nil lim.max_depth depth _ [] e).0
    IsShaped-of_nil (str s) location depth e =
        let (h, k) = kept_of_nil lim.max_depth depth _ _ e in
        (h, (kept_of_nil lim.max_string_length (length s) _ [] k).0)
    IsShaped-of_nil (arr vs) location depth e =
        let (h, k) = kept_of_nil lim.max_depth depth _ _ e in
        let (many, inside) = nil_append (too_many lim location vs) _ k in
        let few = (kept_of_nil lim.max_array_length (count vs) _ [] many).0 in
        (
          h,
          few,
          AreShaped-of_nil vs location (suc lim.max_array_length) 0 (suc depth) (omega (arith, few))
              inside,
        )
    IsShaped-of_nil (obj fs) location depth e =
        let (h, k) = kept_of_nil lim.max_depth depth _ _ e in
        let (wide, inside) = nil_append (too_wide lim location fs) _ k in
        let narrow = (kept_of_nil lim.max_object_keys (width fs) _ [] wide).0 in
        (
          h,
          narrow,
          FieldsShaped-of_nil fs location (suc lim.max_object_keys) (suc depth)
              (omega (arith, narrow)) inside,
        )

    AreShaped-of_nil :
        (vs : Items) (location : Text) (budget index depth : ℕ)
        → count vs ≤ budget
        → validate_items quoted lim vs location budget index depth ≡ []
        → AreShaped lim vs depth
    AreShaped-of_nil no_item location budget index depth few e = tt
    AreShaped-of_nil (item v vs) location zero index depth few e = absurd (omega (arith, few))
    AreShaped-of_nil (item v vs) location (suc budget) index depth few e =
        let (first, rest) = nil_append (validate_shape quoted lim v _ depth) _ e in
        (
          IsShaped-of_nil v _ depth first,
          AreShaped-of_nil vs location budget (suc index) depth (omega (arith, few)) rest,
        )

    FieldsShaped-of_nil :
        (fs : Fields) (location : Text) (budget depth : ℕ)
        → width fs ≤ budget
        → validate_fields quoted lim fs location budget depth ≡ []
        → FieldsShaped lim fs depth
    FieldsShaped-of_nil no_field location budget depth few e = tt
    FieldsShaped-of_nil (field k v fs) location zero depth few e = absurd (omega (arith, few))
    FieldsShaped-of_nil (field k v fs) location (suc budget) depth few e =
        let (key, after) = nil_append (bad_key quoted lim location k) _ e in
        let (first, rest) = nil_append (validate_shape quoted lim v _ depth) _ after in
        (
          (bad_key-nil location k).0 key,
          IsShaped-of_nil v _ depth first,
          FieldsShaped-of_nil fs location budget depth (omega (arith, few)) rest,
        )

  mutual
    unfolding validate_shape validate_items validate_fields IsShaped AreShaped FieldsShaped too_long
        too_many too_wide

    nil_of_IsShaped :
        (v : Value) (location : Text) (depth : ℕ)
        → IsShaped lim v depth
        → validate_shape quoted lim v location depth ≡ []
    nil_of_IsShaped null location depth h = nil_of_kept lim.max_depth depth _ [] h refl
    nil_of_IsShaped (bool b) location depth h = nil_of_kept lim.max_depth depth _ [] h refl
    nil_of_IsShaped (int n) location depth h = nil_of_kept lim.max_depth depth _ [] h refl
    nil_of_IsShaped (dec m k) location depth h = nil_of_kept lim.max_depth depth _ [] h refl
    nil_of_IsShaped (str s) location depth (h, short) =
        nil_of_kept lim.max_depth depth _ _ h
          (nil_of_kept lim.max_string_length (length s) _ [] short refl)
    nil_of_IsShaped (arr vs) location depth (h, few, inside) =
        nil_of_kept lim.max_depth depth _ _ h (
          append_nil _ _ (nil_of_kept lim.max_array_length (count vs) _ [] few refl)
            (nil_of_AreShaped vs location (suc lim.max_array_length) 0 (suc depth) inside))
    nil_of_IsShaped (obj fs) location depth (h, narrow, inside) =
        nil_of_kept lim.max_depth depth _ _ h (
          append_nil _ _ (nil_of_kept lim.max_object_keys (width fs) _ [] narrow refl)
            (nil_of_FieldsShaped fs location (suc lim.max_object_keys) (suc depth) inside))

    nil_of_AreShaped :
        (vs : Items) (location : Text) (budget index depth : ℕ)
        → AreShaped lim vs depth
        → validate_items quoted lim vs location budget index depth ≡ []
    nil_of_AreShaped no_item location budget index depth h = refl
    nil_of_AreShaped (item v vs) location zero index depth h = refl
    nil_of_AreShaped (item v vs) location (suc budget) index depth (h, k) =
        append_nil _ _ (nil_of_IsShaped v _ depth h)
          (nil_of_AreShaped vs location budget (suc index) depth k)

    nil_of_FieldsShaped :
        (fs : Fields) (location : Text) (budget depth : ℕ)
        → FieldsShaped lim fs depth
        → validate_fields quoted lim fs location budget depth ≡ []
    nil_of_FieldsShaped no_field location budget depth h = refl
    nil_of_FieldsShaped (field k v fs) location zero depth h = refl
    nil_of_FieldsShaped (field k v fs) location (suc budget) depth (clean, h, l) =
        append_nil _ _ ((bad_key-nil location k).1 clean) (
          append_nil _ _ (nil_of_IsShaped v _ depth h)
            (nil_of_FieldsShaped fs location budget depth l))

  -- `validate_runtime_shape` finds nothing against a value exactly when the value keeps every limit:
  -- no value in it lies deeper than the depth, no text and no array is longer and no object wider
  -- than its limit, and no key has a control character. So the items behind a limit, which are
  -- not looked at, hide no value that passes.
  pub validate_runtime_shape-nil_iff :
      (v : Value) (location : Text)
      → (validate_runtime_shape quoted lim v location ≡ []) ↔ IsShaped lim v 0
  unfolding validate_runtime_shape
  validate_runtime_shape-nil_iff v location = (
    λ e. IsShaped-of_nil v location 0 (nil_of_map _ (validate_shape quoted lim v location 0) e),
    λ h. ap (map _) (nil_of_IsShaped v location 0 h),
  )
