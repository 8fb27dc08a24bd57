-- ===== src/Errors/Wrap.antt =====
-- What `wrapError` of worker/common.go keeps of an error.
use mquery.Base.{◌≡◌, refl, Bool, true, false}
use mquery.Errors.{
  GoError, input_error, input_error_ptr, plain_error, message, is_user_error, wrap_error,
}

-- The types that `init` of cmd/mquery registers with gob, which also serve for pointers to them; a
-- result that holds an error of another type cannot be encoded.
pub is_registered : GoError → Bool
is_registered (plain_error m) = false
is_registered _ = true

-- The pointer type that `wrapError` does not know and `IsUserError` does.
pub is_input_ptr : GoError → Bool
is_input_ptr (input_error_ptr m) = true
is_input_ptr _ = false

-- A wrapped error can be encoded, keeps its message, and is a user's error exactly if it was one,
-- unless it is a pointer to an `InputError`; wrapping it again changes nothing.
pub wrap_error_lem :
    (e : GoError)
    → (is_registered (wrap_error e) ≡ true)
      × (message (wrap_error e) ≡ message e)
      × (is_input_ptr e ≡ false → is_user_error (wrap_error e) ≡ is_user_error e)
      × (wrap_error (wrap_error e) ≡ wrap_error e)
unfolding wrap_error is_registered message is_user_error is_input_ptr
wrap_error_lem (input_error m) = (refl, refl, λ _. refl, refl)
wrap_error_lem (input_error_ptr m) = (refl, refl, λ h. cc, refl)
wrap_error_lem _ = (refl, refl, λ _. refl, refl)
