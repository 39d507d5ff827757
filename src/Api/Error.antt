-- ===== src/Api/Error.antt =====
-- crates/api/src/error.rs
use stellar_risk.Common.{ℕ, String}
use stellar_risk.Domain.Error.{DomainError, not_found, invalid_input, conflict, storage, internal}

pub data ApiError : Type 0 where
  missing bad_request unauthorized forbidden failed : String → ApiError

-- `From<DomainError>`
unfoldable pub from : DomainError → ApiError
from (not_found m) = missing m
from (invalid_input m) = bad_request m
from (conflict m) = bad_request m
from (storage m) = failed m
from (internal m) = failed m

-- The status code, and the message of the JSON body.
unfoldable pub into_response : ApiError → ℕ × String
into_response (missing m) = (404, m)
into_response (bad_request m) = (400, m)
into_response (unauthorized m) = (401, m)
into_response (forbidden m) = (403, m)
into_response (failed m) = (500, "internal error")
