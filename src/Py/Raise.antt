-- ===== src/Py/Raise.antt =====
-- A computation that may raise an exception; the text says which.
use diplom_code.Base.{◌≡◌, refl, String, Bool, true, false, List, [], ◌∷◌, if◌then◌else◌}

pub data Result {ℓ} (A : Type ℓ) : Type ℓ where
  ok : A → Result A
  raise : String → Result A

-- What runs after `r`, unless `r` raises.
abbrev pub ◌>>=◌ {ℓ κ} : {X : Type ℓ} {Y : Type κ} → Result X → (X → Result Y) → Result Y
ok x >>= next = next x
raise name >>= next = raise name

infixl 5 ◌>>=◌
infixl 5 ◌>>◌
abbrev pub ◌>>◌ {κ} : {Y : Type κ} → Result (Unit {0}) → Result Y → Result Y
r >> next = r >>= λ _. next

-- `if not b: raise e`
abbrev pub require : Bool → String → Result (Unit {0})
require true e = ok tt
require false e = raise e

-- A list comprehension whose element may raise.
abbrev pub map_result {ℓ κ} : {A : Type ℓ} {B : Type κ} → (A → Result B) → List A → Result (List B)
map_result f [] = ok []
map_result f (x ∷ xs) = do y ← f x; ys ← map_result f xs; ok (y ∷ ys)

pub >>=-eq-ok {ℓ κ} :
    {X : Type ℓ} {Y : Type κ} (r : Result X) (next : X → Result Y) {y : Y}
    → (r >>= next) ≡ ok y
    → (x : X) × (r ≡ ok x) × (next x ≡ ok y)
>>=-eq-ok (ok x) next h = (x, refl, h)
>>=-eq-ok (raise name) next h = cc

pub ok-injective {ℓ} : {A : Type ℓ} {a b : A} → ok a ≡ ok b → a ≡ b
ok-injective h = cc

-- A predicate of what is computed, when no exception is raised.
abbrev pub Holds {ℓ κ} : {A : Type ℓ} → (A → Type κ) → Result A → Type κ
Holds P (ok x) = P x
Holds P (raise name) = Unit

pub Holds->>= {ℓ κ μ} :
    {A : Type ℓ} {B : Type κ} (P : B → Type μ) (r : Result A) (next : A → Result B)
    → ((x : A) → Holds P (next x))
    → Holds P (r >>= next)
Holds->>= P (ok x) next h = h x
Holds->>= P (raise name) next h = tt

-- No exception is raised, and the predicate holds of what is computed.
abbrev pub Surely {ℓ} : {A : Type ℓ} → (A → Type 0) → Result A → Type 0
Surely P (ok x) = P x
Surely P (raise name) = ⊥

abbrev pub IsOk {ℓ} : {A : Type ℓ} → Result A → Type 0
IsOk r = Surely (λ _. Unit {0}) r

pub Surely->>= {ℓ κ} :
    {A : Type ℓ} {B : Type κ} {Q : A → Type 0} (P : B → Type 0) (r : Result A) (next : A → Result B)
    → Surely Q r
    → ((x : A) → Q x → Surely P (next x))
    → Surely P (r >>= next)
Surely->>= P (ok x) next h k = k x h
Surely->>= P (raise name) next h k = h

pub Surely-if {ℓ} :
    {A : Type ℓ} (P : A → Type 0) (b : Bool) (r s : Result A)
    → Surely P r
    → Surely P s
    → Surely P (if b then r else s)
Surely-if P true r s h k = h
Surely-if P false r s h k = k
