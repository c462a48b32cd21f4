-- ===== src/Resource/Validate/Acceptable.antt =====
-- Which request bodies `validate_json` of include/nexran.h accepts.
use mathlib.Core.List.{Mem, mem-cons_self, mem-cons_of_mem, eq-or-mem_of_mem-cons, not-mem-nil}
use mathlib.Core.Path.{subst}
use mathlib.Core.Bool.{Bool-set}
use mathlib.Core.Logic.Or
use nexran.Base.{
  String, ◌≡◌, ◌↔◌, refl, ap, true, false, List, [], ◌∷◌, ◌++◌, Option, none, some, Option-cases,
  Bool-cases, inl, inr, All, arith, string_key, ◌==◌,
}
use nexran.Base.Map.{find}
use nexran.Resource.Json.{Json}
use nexran.Resource.Schema.{Schema, HttpMethod, JsonType}
use nexran.Resource.Validate.{
  contains_string, has_type, validate_value, keys_of, required_problem, optional_problem,
  disallowed_problem, enum_problem, validate_json,
}
use nexran.Resource.Validate.Messages.{problems, verdict, faults, validate_json-verdict}

append-empty : (xs ys : List String) → (xs ++ ys ≡ []) ↔ ((xs ≡ []) × (ys ≡ []))
append-empty [] ys = (λ h. (refl, h), λ p. p.1)
append-empty (x ∷ xs) ys = (λ h. absurd (ground (arith, h)), λ p. absurd (ground (arith, p.0)))

verdict-empty : (ms : List String) → (verdict ms).retval ≡ true → ms ≡ []
verdict-empty [] h = refl
verdict-empty (m ∷ ms) h = absurd (ground (arith, h))

-- No key is at fault if and only if each has the property that having no message means.
problems-All {ℓ} :
    {A : Type ℓ} (problem : A → Option String) (P : A → Type 0)
    → ((k : A) → (problem k ≡ none) ↔ P k)
    → (ks : List A) → (problems problem ks ≡ []) ↔ All P ks
unfolding problems
problems-All problem P means [] = (λ h. tt, λ a. refl)
problems-All problem P means (k ∷ ks) = elim (Option-cases (problem k)) [
  | inl e ↦
      let (to, from) = problems-All problem P means ks in
      rw (e, problems) (λ h. ((means k).0 e, to h), λ a. from a.1)
  | inr (message, e) ↦
      rw (e, problems)
        (λ h. absurd (ground (arith, h)), λ a. absurd (ground (arith, e, (means k).1 a.0)))
]

contains_string-Mem : (s : String) (ts : List String) → (contains_string s ts ≡ true) ↔ Mem s ts
contains_string-Mem s [] = (λ h. absurd (ground (arith, h)), λ m. absurd (not-mem-nil m))
contains_string-Mem s (t ∷ ts) =
    let (to, from) = contains_string-Mem s ts in
    (
      λ h. elim (Bool-cases (s == t)) [
        | inl y ↦ subst (λ x. Mem s (x ∷ ts)) ((string_key.beq_iff s t).0 y) mem-cons_self
        | inr n ↦ mem-cons_of_mem t (to (ground (arith, h)))
      ],
      λ m.
          Or.elim (Bool-set _ _) (eq-or-mem_of_mem-cons m)
            (λ e. ground (arith, (string_key.beq_iff s t).1 e)) (λ r. ground (arith, from r)),
    )

module _ (json : Json) where
  open json use {
    Value, is_string, is_int, is_uint, is_float, is_object, is_array, is_bool, has_member, member,
    get_string,
  }

  -- What rapidjson's tests say of a value of each type.
  abbrev pub IsOfType : JsonType → Value → Type 0
  IsOfType JsonType.string v = (is_string v ≡ true)
  IsOfType JsonType.int v = (is_int v ≡ true)
  IsOfType JsonType.uint v = (is_uint v ≡ true)
  IsOfType JsonType.float v = (is_float v ≡ true)
  IsOfType JsonType.object v = (is_object v ≡ true)
  IsOfType JsonType.array v = (is_array v ≡ true)
  IsOfType JsonType.bool v = (is_bool v ≡ true)

  -- The member `k` has the type that the schema gives the property.
  abbrev pub IsTyped : Schema → Value → String → Type 0
  IsTyped schema obj k =
      (t : JsonType) × (find k schema.property_types ≡ some t) × IsOfType t (member obj k)

  pub record IsAcceptable (schema : Schema) (m : HttpMethod) (obj : Value) : Type 0 where
    pub required :
        All (λ k. (has_member obj k ≡ true) × IsTyped schema obj k) (keys_of (schema.required m))
    pub optional :
        All (λ k. has_member obj k ≡ true → IsTyped schema obj k) (keys_of (schema.optional m))
    pub disallowed : All (λ k. has_member obj k ≡ false) (keys_of (schema.disallowed m))
    pub enums :
        All
          (λ (e : String × List String).
            has_member obj e.0 ≡ true
            → is_string (member obj e.0) ≡ true
            → Mem (get_string (member obj e.0)) e.1)
          schema.property_enums

  has_type-IsOfType : (t : JsonType) (v : Value) → (has_type json t v ≡ true) ↔ IsOfType t v
  unfolding has_type
  has_type-IsOfType JsonType.string v = (λ h. h, λ h. h)
  has_type-IsOfType JsonType.int v = (λ h. h, λ h. h)
  has_type-IsOfType JsonType.uint v = (λ h. h, λ h. h)
  has_type-IsOfType JsonType.float v = (λ h. h, λ h. h)
  has_type-IsOfType JsonType.object v = (λ h. h, λ h. h)
  has_type-IsOfType JsonType.array v = (λ h. h, λ h. h)
  has_type-IsOfType JsonType.bool v = (λ h. h, λ h. h)

  validate_value-IsTyped :
      (schema : Schema) (obj : Value) (k : String)
      → (validate_value json schema k (member obj k) ≡ true) ↔ IsTyped schema obj k
  unfolding validate_value
  validate_value-IsTyped schema obj k = elim (Option-cases (find k schema.property_types)) [
    | inl n ↦ (λ h. absurd (ground (arith, h)), λ (t, f, o). absurd (ground (arith, f)))
    | inr (t, y) ↦ (
      λ h. (t, y, (has_type-IsOfType t (member obj k)).0 (ground (arith, h))),
      λ (t', f, o). ground (arith, (has_type-IsOfType t' (member obj k)).1 o),
    )
  ]

  required_problem_lem :
      (schema : Schema) (obj : Value) (k : String)
      → (required_problem json schema obj k ≡ none)
        ↔ ((has_member obj k ≡ true) × IsTyped schema obj k)
  unfolding required_problem
  required_problem_lem schema obj k =
      let (to, from) = validate_value-IsTyped schema obj k in
      (λ h. (ground (arith, h), to (ground (arith, h))), λ (p, t). ground (arith, from t))

  optional_problem_lem :
      (schema : Schema) (obj : Value) (k : String)
      → (optional_problem json schema obj k ≡ none)
        ↔ (has_member obj k ≡ true → IsTyped schema obj k)
  unfolding optional_problem
  optional_problem_lem schema obj k =
      let (to, from) = validate_value-IsTyped schema obj k in
      (
        λ h p. to (ground (arith, h)),
        λ f. elim (Bool-cases (has_member obj k)) [
          | inl y ↦ ground (arith, from (f y))
          | inr n ↦ ground arith
        ],
      )

  disallowed_problem_lem :
      (obj : Value) (k : String)
      → (disallowed_problem json obj k ≡ none) ↔ (has_member obj k ≡ false)
  unfolding disallowed_problem
  disallowed_problem_lem obj k = (λ h. ground (arith, h), λ h. ground arith)

  enum_problem_lem :
      (obj : Value) (e : String × List String)
      → (enum_problem json obj e ≡ none) ↔ (
          has_member obj e.0 ≡ true
          → is_string (member obj e.0) ≡ true
          → Mem (get_string (member obj e.0)) e.1)
  unfolding enum_problem
  enum_problem_lem obj (k, values) =
      let (to, from) = contains_string-Mem (get_string (member obj k)) values in
      (
        λ h p q. to (ground (arith, h)),
        λ f. elim (Bool-cases (has_member obj k)) [
          | inr n ↦ ground arith
          | inl y ↦ elim (Bool-cases (is_string (member obj k))) [
            | inr n ↦ ground arith
            | inl z ↦ ground (arith, from (f y z))
          ]
        ],
      )

  -- Without immediate abort a body is accepted if and only if each required property is there with the
  -- type of the schema, each optional one that is there has its type, no disallowed one is there, and
  -- each text for which the schema lists the values is one of these.
  pub validate_json-IsAcceptable :
      (schema : Schema) (m : HttpMethod) (obj : Value)
      → schema.immediate_abort ≡ false
      → ((validate_json json schema m obj none).retval ≡ true) ↔ IsAcceptable schema m obj
  unfolding faults
  validate_json-IsAcceptable schema m obj h =
      let (r, r') =
        problems-All (required_problem json schema obj) _ (required_problem_lem schema obj)
          (keys_of (schema.required m)) in
      let (o, o') =
        problems-All (optional_problem json schema obj) _ (optional_problem_lem schema obj)
          (keys_of (schema.optional m)) in
      let (d, d') =
        problems-All (disallowed_problem json obj) _ (disallowed_problem_lem obj)
          (keys_of (schema.disallowed m)) in
      let (n, n') =
        problems-All (enum_problem json obj) _ (enum_problem_lem obj) schema.property_enums in
      rw (validate_json-verdict json schema m obj h) (
        λ y.
            let (a, en) = (append-empty _ _).0 (verdict-empty _ y) in
            let (b, di) = (append-empty _ _).0 a in
            let (re, op) = (append-empty _ _).0 b in
            record { required = r re; optional = o op; disallowed = d di; enums = n en },
        λ ac.
            ap (λ ms. (verdict ms).retval)
              ((append-empty _ _).1 (
                (append-empty _ _).1
                    ((append-empty _ _).1 (r' ac.required, o' ac.optional), d' ac.disallowed),
                n' ac.enums,
              )),
      )

  -- The type of a property is the one that the schema names.
  pub IsTyped-find :
      (schema : Schema) (obj : Value) (k : String) (t : JsonType)
      → find k schema.property_types ≡ some t
      → IsTyped schema obj k
      → IsOfType t (member obj k)
  IsTyped-find schema obj k t h (t', f, o) =
      subst (λ x. IsOfType x (member obj k)) (ground (arith, h, f)) o
