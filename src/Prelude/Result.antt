-- ===== src/Prelude/Result.antt =====
-- How a call of the source ends: with a value, with an exception, or with the whole process.
use rt_mbms_mw.Prelude.{◌≡◌, refl, ap, subst}

-- `literal` is a thrown string literal, which `catch (std::exception)` does not catch.
pub data Exception : Type 0 where
  literal standard : Exception

pub data Result {ℓ} (A : Type ℓ) : Type ℓ where
  terminate : Result A
  throw : Exception → Result A
  ok : A → Result A

pub ok_inj {ℓ} : {A : Type ℓ} {a b : A} → ok a ≡ ok b → a ≡ b
ok_inj h = cc

module _ {ℓ κ} {X : Type ℓ} {Y : Type κ} where
  abbrev pub Result_map : (X → Y) → Result X → Result Y
  Result_map g terminate = terminate
  Result_map g (throw exception) = throw exception
  Result_map g (ok x) = ok (g x)

  pub Result_map-eq-ok :
      (g : X → Y) (r : Result X) {y : Y} → Result_map g r ≡ ok y → (x : X) × (r ≡ ok x) × (g x ≡ y)
  Result_map-eq-ok g terminate done = cc
  Result_map-eq-ok g (throw exception) done = cc
  Result_map-eq-ok g (ok x) done = (x, refl, cc)

  -- What follows is run only behind a value.
  infixl 5 ◌>>=◌
  abbrev pub ◌>>=◌ : Result X → (X → Result Y) → Result Y
  terminate >>= next = terminate
  throw exception >>= next = throw exception
  ok x >>= next = next x

  pub >>=-eq-ok :
      (r : Result X) (next : X → Result Y) {y : Y}
      → (r >>= next) ≡ ok y
      → (x : X) × (r ≡ ok x) × (next x ≡ ok y)
  >>=-eq-ok terminate next done = cc
  >>=-eq-ok (throw exception) next done = cc
  >>=-eq-ok (ok x) next done = (x, refl, done)

  pub >>=-terminate :
      (r : Result X) (next : X → Result Y) → r ≡ terminate → (r >>= next) ≡ terminate
  >>=-terminate r next h = ap (λ s. s >>= next) h

-- The value, if there is one, has the property.
abbrev pub WhenOk {ℓ κ} : {X : Type ℓ} → (X → Type κ) → Result X → Type κ
WhenOk P terminate = Unit
WhenOk P (throw exception) = Unit
WhenOk P (ok x) = P x

module _ {ℓ κ μ} {X : Type ℓ} {Y : Type κ} (P : Y → Type μ) where
  pub WhenOk-map : (g : X → Y) (r : Result X) → WhenOk (λ x. P (g x)) r → WhenOk P (Result_map g r)
  WhenOk-map g terminate h = tt
  WhenOk-map g (throw exception) h = tt
  WhenOk-map g (ok x) h = h

  pub WhenOk-map-all : (g : X → Y) (r : Result X) → ((x : X) → P (g x)) → WhenOk P (Result_map g r)
  WhenOk-map-all g terminate h = tt
  WhenOk-map-all g (throw exception) h = tt
  WhenOk-map-all g (ok x) h = h x

module _ {ℓ κ} {X : Type ℓ} (P : X → Type κ) where
  pub WhenOk-eq : (r : Result X) {x : X} → WhenOk P r → r ≡ ok x → P x
  WhenOk-eq terminate h e = cc
  WhenOk-eq (throw exception) h e = cc
  WhenOk-eq (ok y) h e = subst P (ok_inj e) h

  pub WhenOk-all : (r : Result X) → ((x : X) → r ≡ ok x → P x) → WhenOk P r
  WhenOk-all terminate h = tt
  WhenOk-all (throw exception) h = tt
  WhenOk-all (ok y) h = h y refl

module _ {ℓ κ μ} {X : Type ℓ} {Y : Type κ} (P : Y → Type μ) where
  pub WhenOk-map-eq :
      (g : X → Y) (r : Result X) → ((x : X) → r ≡ ok x → P (g x)) → WhenOk P (Result_map g r)
  WhenOk-map-eq g r h = WhenOk-map P g r (WhenOk-all (λ x. P (g x)) r h)
