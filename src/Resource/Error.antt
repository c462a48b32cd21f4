-- ===== src/Resource/Error.antt =====
-- `RequestError` of include/restserver.h and `AppError` of include/nexran.h, and how the program's
-- functions end.
use nexran.Base.{
  ◌≡◌, ◌⊎◌, inl, inr, refl, arith, ℕ, String, List, [], ◌∷◌, ◌++◌, Option, none, some,
}
use nexran.Resource.Writer.{Token, start_object, end_object, start_array, end_array, str}

pub record AppError : Type 0 where
  pub http_status : ℕ
  pub messages : List String

-- `if (!*ae) *ae = new AppError(status); (*ae)->add(message);`
unfoldable pub add_error : ℕ → String → Option AppError → Option AppError
add_error status message none = some (record { http_status = status; messages = message ∷ [] })
add_error status message (some e) = some (record e { messages = e.messages ++ message ∷ [] })

-- How a function ends whose caller passes `AppError **ae` with `*ae` null: with a value; with false
-- or NULL, and then what `*ae` holds; or in a failed assertion or in what is undefined, such as a
-- dangling pointer.
pub data Result {ℓ} (A : Type ℓ) : Type ℓ where
  ok : A → Result A
  err : Option AppError → Result A
  fault : Result A

pub Result-cases {ℓ} :
    {A : Type ℓ} (r : Result A)
    → ((a : A) × (r ≡ ok a)) ⊎ ((e : Option AppError) × (r ≡ err e)) ⊎ (r ≡ fault)
Result-cases (ok a) = inl (a, refl)
Result-cases (err e) = inr (inl (e, refl))
Result-cases fault = inr (inr refl)

infixl 5 ◌>>=◌
abbrev pub ◌>>=◌ {ℓ κ} : {A : Type ℓ} {B : Type κ} → Result A → (A → Result B) → Result B
ok a >>= f = f a
err e >>= f = err e
fault >>= f = fault

-- A chain that ends well has a first step that ends well.
pub bind-ok {ℓ κ} :
    {A : Type ℓ} {B : Type κ} (r : Result A) (f : A → Result B) (v : B)
    → (r >>= f) ≡ ok v
    → (a : A) × (r ≡ ok a) × (f a ≡ ok v)
bind-ok (ok a) f v h = (a, refl, h)
bind-ok (err e) f v h = absurd (ground (arith, h))
bind-ok fault f v h = absurd (ground (arith, h))

-- A failure that reports one message.
abbrev pub raise {ℓ} : {A : Type ℓ} → ℕ → String → Result A
raise status message = err (some (record { http_status = status; messages = message ∷ [] }))

abbrev pub message_tokens : List String → List Token
message_tokens [] = []
message_tokens (m ∷ ms) = str m ∷ message_tokens ms

unfoldable pub serialize : AppError → List Token
serialize e =
    start_object ∷ str "errors" ∷ start_array ∷ message_tokens e.messages
    ++ end_array ∷ end_object ∷ []
