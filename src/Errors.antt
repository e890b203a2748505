-- ===== src/Errors.antt =====
-- Errors as values: internal/server/error.go, and the error classes of package os and of SQLite
-- that the program tells apart.
use roodox_sever_win.Base.{Bool, true, false}

-- `os_invalid` is os.ErrInvalid; `busy` an SQLite error whose text isSQLiteBusy recognises;
-- `other` any error that matches no sentinel.
pub data Err : Type 0 where
  os_not_exist os_permission os_exist os_invalid busy other : Err

-- The codes of gRPC; `unavailable` is what a client sees when a panic, which no handler recovers
-- from, ends the process.
pub data Code : Type 0 where
  not_found permission_denied already_exists invalid_argument internal failed_precondition
        unauthenticated unavailable :
      Code

pub data Result {ℓ} (E : Type 0) (A : Type ℓ) : Type ℓ where
  ok : A → Result E A
  err : E → Result E A

infixl 5 ◌>>=◌
abbrev pub ◌>>=◌ {ℓ κ} :
    {E : Type 0} {A : Type ℓ} {B : Type κ} → Result E A → (A → Result E B) → Result E B
ok a >>= f = f a
err e >>= f = err e

-- errors.Is(err, os.ErrNotExist)
unfoldable pub is_not_exist : Err → Bool
is_not_exist os_not_exist = true
is_not_exist _ = false

-- toGrpcError
unfoldable pub to_grpc_error : Err → Code
to_grpc_error os_not_exist = not_found
to_grpc_error os_permission = permission_denied
to_grpc_error os_exist = already_exists
to_grpc_error os_invalid = invalid_argument
to_grpc_error _ = internal

-- `if err != nil { return nil, toGrpcError(err) }`
abbrev pub grpc {ℓ} : {A : Type ℓ} → Result Err A → Result Code A
grpc (ok a) = ok a
grpc (err e) = err (to_grpc_error e)
