-- ===== src/Request.antt =====
-- request.proto, as request.pb.go declares it: the request and the response that every call carries.
-- Their encoding is protobuf's and enters the other modules as a parameter.
use ttrpc.Prelude.{ℕ, String, Bool, Option, List, nat_eq, string_eq}
use ttrpc.Errors.{Error, Result, Slice, Status}

pub record KeyValue : Type 0 where
  pub key : String
  pub value : String

-- `timeout_nano` is the bit pattern of the int64.
pub record Request : Type 0 where
  pub service : String
  pub method : String
  pub payload : Slice
  pub timeout_nano : ℕ
  pub metadata : List KeyValue

pub record Response : Type 0 where
  pub status : Option Status
  pub payload : Slice

-- What protobuf and gRPC's status package do for the code: `proto.Unmarshal` and `proto.Marshal` of a
-- request and of a response, and `status.FromError`, whose Boolean says whether the error carries a
-- status.
pub record Libraries : Type 0 where
  pub unmarshal_request : Slice → Result Request
  pub marshal_request : Request → Result (List ℕ)
  pub unmarshal_response : Slice → Result Response
  pub marshal_response : Response → Result (List ℕ)
  pub from_error : Error → Status × Bool
