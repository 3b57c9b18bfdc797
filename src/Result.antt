-- ===== src/Result.antt =====
-- `Result<T, E>` and its `?` operator, as a monad.
use prelay_server.Base.{arith, ap, ◌≡◌, ◌↔◌, refl, Bool, true, false, Option, none, some}

pub data Result {ℓ} (E : Type 0) (A : Type ℓ) : Type ℓ where
  ok : A → Result E A
  err : E → Result E A

-- `?`: an error ends the function.
infixl 5 ◌>>=◌ ◌>>◌
abbrev pub ◌>>=◌ {ℓ κ} :
    {E : Type 0} {A : Type ℓ} {B : Type κ} → Result E A → (A → Result E B) → Result E B
result >>= rest = elim result [ ok a ↦ rest a | err e ↦ err e ]

abbrev pub ◌>>◌ {ℓ} : {E : Type 0} {B : Type ℓ} → Result E (Unit {0}) → Result E B → Result E B
check >> rest = check >>= λ _. rest

-- `if test { return Err(e) }`.
abbrev pub refuse_if : {E : Type 0} → Bool → E → Result E (Unit {0})
refuse_if true e = err e
refuse_if false e = ok tt

abbrev pub ok_or {ℓ} : {E : Type 0} {A : Type ℓ} → Option A → E → Result E A
ok_or none e = err e
ok_or (some a) e = ok a

-- A check that is made before others: both succeed, each exactly under its own condition.
pub both {ℓ κ} :
    {E : Type 0} {P : Type ℓ} {Q : Type κ} (m k : Result E (Unit {0}))
    → (m ≡ ok tt) ↔ P
    → (k ≡ ok tt) ↔ Q
    → ((m >> k) ≡ ok tt) ↔ (P × Q)
both (ok tt) k p q = (λ h. (p.0 refl, q.0 h), λ h. q.1 h.1)
both (err e) k p q = (λ h. cc, λ h. cc (p.1 h.0))

-- A successful chain is taken apart step by step: its first step succeeds, and so does the rest.
pub after {ℓ κ μ} :
    {E : Type 0} {A : Type ℓ} {B : Type κ} {G : Type μ} (m : Result E A) (f : A → Result E B)
    {b : B}
    → (m >>= f) ≡ ok b
    → ((a : A) → m ≡ ok a → f a ≡ ok b → G)
    → G
after (ok a) f h k = k a refl h
after (err e) f h k = absurd (ground arith)

pub ok_inj {ℓ} : {E : Type 0} {A : Type ℓ} {a b : A} → ◌≡◌ {A = Result E A} (ok a) (ok b) → a ≡ b
ok_inj h = ground (arith, h)

pub ok_or-some {ℓ} :
    {E : Type 0} {A : Type ℓ} (o : Option A) (e : E) {a : A} → ok_or o e ≡ ok a → o ≡ some a
ok_or-some none e h = absurd (ground arith)
ok_or-some (some b) e h = ap some (ok_inj h)
