-- ===== src/Driver/Defs.antt =====
-- `OpenstackDriver` (pkg/driver/openstack.go), its requests and answers, and `mapErrorToCode`.
use machine_controller_manag.Base.{String, Option, List, if◌then◌else◌}
use machine_controller_manag.Action.{Answer, Service, Result, ok, err, panicked}
use machine_controller_manag.Errors.{Err, err_not_found, err_multiple_found, is_error}
use machine_controller_manag.Config.{MachineProviderConfig}
use machine_controller_manag.Secret.{Secret}
use machine_controller_manag.Clients.Factory.{Factory}
use machine_controller_manag.Validation.{FieldError}
use machine_controller_manag.Executor.Defs.{Poller}

-- The driver: its decoder for the provider spec `Raw` of a machine class, in two steps, and its
-- constructor of clients; further `ErrorList.ToAggregate` and `wait.Poll`, of the libraries.
pub record OpenstackDriver (W Raw : Type 0) : Type 0 where
  pub marshal_json : Raw → Answer String
  pub decode : String → Answer MachineProviderConfig
  pub client_constructor : Secret → Service W (Factory W)
  pub to_aggregate : List FieldError → Option Err
  pub poller : Poller W

-- `codes.Code`, as far as the program uses it.
pub data Code : Type 0 where
  invalid_argument internal not_found out_of_range : Code

-- How a request ends: a response, or a status with a code and the error that it prints, or a
-- panic.
pub data Reply (A : Type 0) : Type 0 where
  response : A → Reply A
  status : Code → Err → Reply A
  crashed : Reply A

-- `mapErrorToCode`
unfoldable pub map_error_to_code : Err → Code
map_error_to_code e =
    if is_error e err_not_found
    then not_found
    else if is_error e err_multiple_found
    then out_of_range
    else internal

-- `if err != nil { return nil, status.Error(code(err), err.Error()) }; return f(a), nil`
abbrev pub reply : {W A B : Type 0} → (Err → Code) → (A → B) → Result A × W → Reply B × W
reply code f (ok a, w) = (response (f a), w)
reply code f (err e, w) = (status (code e) e, w)
reply code f (panicked, w) = (crashed, w)

abbrev pub always_internal : Err → Code
always_internal e = internal

-- The machine of a request: its name and the provider ID of its spec.
pub record Machine : Type 0 where
  pub name : String
  pub provider_id : String

pub record CreateMachineResponse : Type 0 where
  pub provider_id : String
  pub node_name : String

pub record GetMachineStatusResponse : Type 0 where
  pub provider_id : String
  pub node_name : String
