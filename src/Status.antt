-- ===== src/Status.antt =====
-- common/Status.h: the result of every fallible operation. A success carries the values that the
-- C++ code writes through its out-parameters; an error carries its code and leaves them alone.
-- The message of a Status is text for logs and is left out.
use lowlat_stream.Base.{Bool, true, false}

pub data Code : Type 0 where
  invalid_arg io_error net_error timeout closed internal : Code

pub data Result {ℓ} (V : Type ℓ) : Type ℓ where
  err : (code : Code) → Result V
  ok : (value : V) → Result V

-- The rest of a function runs only if the step before it was Ok.
infixl 5 ◌>>=◌ ◌>>◌
abbrev pub ◌>>=◌ {ℓ₁ ℓ₂} :
    {V : Type ℓ₁} {W : Type ℓ₂} (step : Result V) (next : V → Result W) → Result W
◌>>=◌ step next = elim step [ err code ↦ err code | ok value ↦ next value ]

abbrev pub ◌>>◌ {ℓ₂} : {W : Type ℓ₂} (check : Result (Unit {0})) (next : Result W) → Result W
◌>>◌ check next = elim check [ err code ↦ err code | ok _ ↦ next ]

-- `if (!test) return Status::error(code)`.
abbrev pub require : (test : Bool) (code : Code) → Result (Unit {0})
require test code = elim test [ false ↦ err code | true ↦ ok tt ]

-- `if (!status.isOk()) return Status::error(code)`.
abbrev pub or_else {ℓ} : {V : Type ℓ} (step : Result V) (code : Code) → Result V
or_else step code = elim step [ err _ ↦ err code | ok value ↦ ok value ]
