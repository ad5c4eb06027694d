-- ===== src/Errors.antt =====
-- Error values (pkg/driver/executor/errors.go, pkg/openstack/errors.go) and errors of libraries.
-- An error made by `fmt.Errorf` is its format, its arguments and the errors that it prints.
use machine_controller_manag.Base.{String, Bool, true, false, ◌||◌, List}

-- `executor.ErrNotFound` and `executor.ErrMultipleFound`.
pub data Sentinel : Type 0 where
  err_not_found err_multiple_found : Sentinel

-- An error from a library: how the type assertions on it end, and its text.
pub record ForeignError : Type 0 where
  pub is_default_404 : Bool
  pub is_404er : Bool
  pub is_resource_not_found : Bool
  pub text : String

pub data Err : Type 0 where
  sentinel : Sentinel → Err
  foreign : ForeignError → Err
  -- `fmt.Errorf` with no error, with one under `%v` or `%s`, with two, and with one under `%w`
  errorf : String → List String → Err
  errorf_v : String → List String → Err → Err
  errorf_vv : String → List String → Err → Err → Err
  errorf_w : String → List String → Err → Err

abbrev pub same_sentinel : Sentinel → Sentinel → Bool
same_sentinel err_not_found err_not_found = true
same_sentinel err_not_found err_multiple_found = false
same_sentinel err_multiple_found err_not_found = false
same_sentinel err_multiple_found err_multiple_found = true

-- `errors.Is`: only `%w` keeps the wrapped error.
unfoldable pub is_error : Err → Sentinel → Bool
is_error (sentinel s) target = same_sentinel s target
is_error (errorf_w format args e) target = is_error e target
is_error (foreign e) target = false
is_error (errorf format args) target = false
is_error (errorf_v format args e) target = false
is_error (errorf_vv format args e e') target = false

-- `IsNotFoundError`: type assertions on the outermost error alone.
unfoldable pub is_not_found_error : Err → Bool
is_not_found_error (foreign e) = e.is_default_404 || e.is_404er || e.is_resource_not_found
is_not_found_error (sentinel s) = false
is_not_found_error (errorf format args) = false
is_not_found_error (errorf_v format args e) = false
is_not_found_error (errorf_vv format args e e') = false
is_not_found_error (errorf_w format args e) = false
