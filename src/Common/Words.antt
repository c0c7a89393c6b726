-- ===== src/Common/Words.antt =====
-- Fixed-width casts and shifts of C, and checked access to a buffer: `none` is an access outside
-- the object that the pointer points into.
use Prim.Native.Nat.{ℕ, ◌+◌, ◌*◌, ◌/◌, ◌%◌, ◌^◌, ◌<◌}
use mathlib.Core.Path.{◌≡◌, refl, subst}
use mathlib.Core.Bool.{Bool, true, false}
use mathlib.Core.Option.{Option, none, some}
use mathlib.Core.List.{List, ◌++◌}
use schc_work.Common.Tests.{ltb, leb, if◌then◌else◌}
use schc_work.Common.Lists.{length, get_elem?, set, take, drop, All}

abbrev pub u8 : ℕ → ℕ
u8 n = n % 2 ^ 8

abbrev pub u16 : ℕ → ℕ
u16 n = n % 2 ^ 16

abbrev pub u32 : ℕ → ℕ
u32 n = n % 2 ^ 32

abbrev pub u64 : ℕ → ℕ
u64 n = n % 2 ^ 64

infixl 75 ◌<<<◌ ◌>>>◌
abbrev pub ◌<<<◌ : ℕ → ℕ → ℕ
x <<< k = x * 2 ^ k

abbrev pub ◌>>>◌ : ℕ → ℕ → ℕ
x >>> k = x / 2 ^ k

abbrev pub Bytes : Type 0
Bytes = List ℕ

abbrev pub IsByte : ℕ → Type 0
IsByte b = b < 256

abbrev pub IsBytes : Bytes → Type 0
IsBytes = All IsByte

infixl 5 ◌>>=◌
abbrev pub ◌>>=◌ {ℓ κ} : {A : Type ℓ} {B : Type κ} → Option A → (A → Option B) → Option B
none >>= f = none
some a >>= f = f a

abbrev pub load : Bytes → ℕ → Option ℕ
load p i = get_elem? p i

abbrev pub store : Bytes → ℕ → ℕ → Option Bytes
store p i v = if ltb i (length p) then some (set p i v) else none

-- The bytes that a callee reads when it is handed `n` bytes at `p`.
abbrev pub view : Bytes → ℕ → Option Bytes
view p n = if leb n (length p) then some (take n p) else none

-- The buffer after `bs` is written at offset `i`.
abbrev pub overwrite : Bytes → ℕ → Bytes → Option Bytes
overwrite p i bs =
    if leb (i + length bs) (length p)
    then some (take i p ++ (bs ++ drop (i + length bs) p))
    else none

-- A property of the result, where there is one.
pub data Ensures {ℓ κ} {A : Type ℓ} (P : A → Type κ) : Option A → Type (ℓ ⊔ κ) where
  fault : Ensures P none
  result : (a : A) → P a → Ensures P (some a)

pub Ensures->>= {ℓ κ ν} :
    {A : Type ℓ} {B : Type κ} {P : B → Type ν} (m : Option A) (f : A → Option B)
    → ((a : A) → m ≡ some a → Ensures P (f a))
    → Ensures P (m >>= f)
Ensures->>= none f h = fault
Ensures->>= (some a) f h = h a refl

pub Ensures-if {ℓ ν} :
    {B : Type ℓ} {P : B → Type ν} (b : Bool) (x y : Option B)
    → (b ≡ true → Ensures P x)
    → (b ≡ false → Ensures P y)
    → Ensures P (if b then x else y)
Ensures-if true x y h k = h refl
Ensures-if false x y h k = k refl

pub Ensures-eq {ℓ ν} :
    {B : Type ℓ} {P : B → Type ν} {r : Option B} {b : B} → Ensures P r → r ≡ some b → P b
Ensures-eq fault e = absurd (cc)
Ensures-eq {P} {b} (result a p) e = let same : a ≡ b = cc in subst P same p

pub Ensures-map {ℓ κ ν} :
    {A : Type ℓ} (P : A → Type κ) (Q : A → Type ν)
    → ((a : A) → P a → Q a)
    → {r : Option A} → Ensures P r
    → Ensures Q r
Ensures-map P Q f fault = fault
Ensures-map P Q f (result a p) = result a (f a p)
