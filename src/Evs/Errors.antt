-- ===== src/Evs/Errors.antt =====
-- Go's error values as the packages build and test them: sentinels, fmt.Errorf with and without
-- %w, errors.Join and errors.Is. Format arguments are left out of the messages.
use idrive_unlimited.Base.{Bool, String, false, true, ℕ, ◌==◌, ◌||◌}

-- ErrNotFound and its kin of internal/evs/client.go and upload.go, fs.ErrExist, fs.ErrInvalid
-- (os.ErrInvalid), the context's error, os.ErrNotExist and fs.ErrPermission.
pub data Kind : Type 0 where
  not_found unauthorized read_only is_directory unsupported_path file_too_large exist invalid
        canceled not_exist permission :
      Kind

abbrev number : Kind → ℕ
number not_found = 0
number unauthorized = 1
number read_only = 2
number is_directory = 3
number unsupported_path = 4
number file_too_large = 5
number exist = 6
number invalid = 7
number canceled = 8
number not_exist = 9
number permission = 10

pub data Error : Type 0 where
  sentinel : Kind → Error
  message : String → Error
  wrap : String → Error → Error
  both : Error → Error → Error

-- errors.Is
unfoldable pub is : Error → Kind → Bool
is (sentinel j) k = number j == number k
is (message text) k = false
is (wrap text e) k = is e k
is (both e f) k = is e k || is f k

pub data Result {ℓ} (A : Type ℓ) : Type ℓ where
  ok : A → Result A
  err : Error → Result A

-- errors.Join of two results that carry no value.
unfoldable pub join_errors : Result (Unit {0}) → Result (Unit {0}) → Result (Unit {0})
join_errors (ok _) r = r
join_errors (err e) (ok _) = err e
join_errors (err e) (err f) = err (both e f)

-- Go on after a success, and stop at an error.
unfoldable pub and_then : {A B : Type 0} → Result A → (A → Result B) → Result B
and_then (ok a) f = f a
and_then (err e) f = err e

abbrev pub required : Bool → Error → Result (Unit {0})
required true e = ok tt
required false e = err e
