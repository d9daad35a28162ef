-- ===== src/Base/Errors.antt =====
-- Go's results: a value, an `error`, or a panic. A message keeps its format string and arguments;
-- it is not rendered, since the driver reads the text of no error that it made itself.
use Prim.Native.String.{String}
use mathlib.Core.Path.{◌≡◌, refl, ap}
use mathlib.Core.Bool.{Bool, true, false}
use mathlib.Core.List.{List}
use exoscale_csi_driver.Base.Int.{ℤ}

-- The codes of google.golang.org/grpc/codes that the driver uses.
pub data Code : Type 0 where
  aborted already_exists failed_precondition internal_error invalid_argument : Code
  not_found out_of_range unimplemented unknown : Code

-- What the callers of foreign code ask of its errors: `errors.Is(err, v3.ErrNotFound)` and
-- `os.IsNotExist(err)`.
pub data Cause : Type 0 where
  api_not_found os_not_exist other_cause : Cause

mutual
  pub data Error : Type 0 where
    -- status.Error and status.Errorf
    status : Code → String → Args → Error
    -- errors.New and fmt.Errorf
    errorf : String → Args → Error
    -- fmt.Errorf with %w
    wrap : String → Error → Error
    -- an error of code outside the driver, with its text
    foreign : Cause → String → Error

  -- The arguments of a format string.
  pub data Args : Type 0 where
    no_args : Args
    text_arg : String → Args → Args
    texts_arg : List String → Args → Args
    number_arg : ℤ → Args → Args
    error_arg : Error → Args → Args

-- `errors.Is(err, v3.ErrNotFound)` looks through %w.
unfoldable pub is_not_found : Error → Bool
is_not_found (status c f a) = false
is_not_found (errorf f a) = false
is_not_found (wrap f e) = is_not_found e
is_not_found (foreign api_not_found t) = true
is_not_found (foreign _ t) = false

-- `os.IsNotExist(err)` does not.
unfoldable pub is_not_exist : Error → Bool
is_not_exist (status c f a) = false
is_not_exist (errorf f a) = false
is_not_exist (wrap f e) = false
is_not_exist (foreign os_not_exist t) = true
is_not_exist (foreign _ t) = false

-- `err.Error()` of a foreign error; other errors have no text in the model.
unfoldable pub foreign_text : Error → String
foreign_text (foreign c t) = t
foreign_text _ = ""

pub data Panic : Type 0 where
  nil_dereference slice_out_of_range explicit_panic : Panic

pub data Result {ℓ} (A : Type ℓ) : Type ℓ where
  ok : A → Result A
  err : Error → Result A
  panic : Panic → Result A

-- `a, err := r; if err != nil { return nil, err }` in code without effects.
abbrev pub and_then {ℓ κ} : {A : Type ℓ} {B : Type κ} → Result A → (A → Result B) → Result B
and_then (ok a) f = f a
and_then (err e) f = err e
and_then (panic p) f = panic p

ok_or {ℓ} : {A : Type ℓ} → A → Result A → A
ok_or a (ok b) = b
ok_or a _ = a

pub ok-injective {ℓ} : {A : Type ℓ} {a b : A} → ok a ≡ ok b → a ≡ b
unfolding ok_or
ok-injective {a = a} e = ap (ok_or a) e

-- A chain that returns has returned at each step.
pub and_then-eq_ok {ℓ κ} :
    {A : Type ℓ} {B : Type κ} (r : Result A) (f : A → Result B) {b : B}
    → and_then r f ≡ ok b
    → (a : A) × (r ≡ ok a) × (f a ≡ ok b)
and_then-eq_ok (ok a) f h = (a, refl, h)
and_then-eq_ok (err e) f h = cc
and_then-eq_ok (panic p) f h = cc
